-- ===== src/Admin/Privileges.antt =====
-- The keys of root scope behind a call of the admin plane by a key that is not of root scope.
use cogni_gate.Prelude.{
  ℕ, ◌≡◌, ◌≢◌, ◌∙◌, refl, sym, ap, subst, arith, inl, inr, true, false, Option, none, some, List,
  Text, text_dec, text_eq, lookup, insert, lookup-insert, ◌⊎◌, Option-cases, some_inj,
}
use cogni_gate.Memory.{Memory, ApiKey, Plane, Result, ok, err}
use cogni_gate.Memory.History.{record_audit}
use cogni_gate.Memory.ApiKeys.{
  scope_root, create_api_key, revoke_api_key, minted, with_key, may_mint, revoked,
}
use cogni_gate.Memory.ApiKeys.Calls.{revoke-none, revoke-some}
use cogni_gate.Memory.Credentials.{generate_api_key}
use cogni_gate.Memory.Providers.{create_provider, update_provider, delete_provider}
use cogni_gate.Memory.Rules.{
  upsert_alias, delete_alias, upsert_route, delete_route, create_webhook, delete_webhook,
}
use cogni_gate.Memory.Quotas.{set_quota, delete_quota}
use cogni_gate.Server.ApiErrors.{ApiError}
use cogni_gate.Admin.{Gateway, AdminConfig, Externals, Draw, is_root, trim_scope}
use cogni_gate.Admin.Audit.{AuditedRequest, audited}
use cogni_gate.Admin.Calls.{AdminCall, answer_call, administer}
use cogni_gate.Admin.Effects.{
  Effect, nothing, new_provider, new_settings, no_provider, new_alias, no_alias, new_route,
  no_route, new_webhook, no_webhook, new_quota, no_quota, new_key, no_key,
}
use cogni_gate.Admin.Effects.Serving.{answer_call-Does}

-- Every root key of the later table was one before, with the same credential.
abbrev pub NoNewRoot : List (Text × ApiKey) → List (Text × ApiKey) → Type 0
NoNewRoot ks ks' =
    (id : Text) (j : ApiKey)
    → lookup text_dec id ks' ≡ some j
    → is_root j ≡ true
    → (i : ApiKey) × (lookup text_dec id ks ≡ some i) × (is_root i ≡ true) × (i.hash ≡ j.hash)

same-NoNewRoot : (ks ks' : List (Text × ApiKey)) → ks' ≡ ks → NoNewRoot ks ks'
same-NoNewRoot ks ks' q id j h r = (j, ap (λ l. lookup text_dec id l) (sym q) ∙ h, r, refl)

insert-NoNewRoot :
    (ks : List (Text × ApiKey)) (id : Text) (k : ApiKey)
    → (is_root k ≡ true
        → (i : ApiKey) × (lookup text_dec id ks ≡ some i) × (is_root i ≡ true) × (i.hash ≡ k.hash))
    → NoNewRoot ks (insert text_dec id k ks)
insert-NoNewRoot ks id k before id' j h r = elim (text_dec id id') [
  | no n ↦ (j, ground (arith, h, n, lookup-insert text_dec id id' k ks), r, refl)
  | yes e ↦
      let same : k ≡ j = some_inj k j (ground (arith, h, e, lookup-insert text_dec id id' k ks)) in
      let found = before (ap is_root same ∙ r) in
      (
        found.0,
        ap (λ i. lookup text_dec i ks) (sym e) ∙ found.1,
        found.2,
        found.3 ∙ ap (λ (i : ApiKey). i.hash) same,
      )
]

revoked-root :
    (k : ApiKey) (now : ℕ) → (is_root (revoked k now) ≡ is_root k) × ((revoked k now).hash ≡ k.hash)
unfolding revoked is_root
revoked-root k now = ground arith

revoke-NoNewRoot :
    (m : Memory) (own id : Text) (now : ℕ) → NoNewRoot m.keys (revoke_api_key m own id now).0.keys
revoke-NoNewRoot m own id now = elim (Option-cases (lookup text_dec id m.keys)) [
  | inl h ↦ rw (revoke-none m own id now h) (same-NoNewRoot m.keys m.keys refl)
  | inr (k, h) ↦ elim (text_dec k.tenant_id own) [
    | no e ↦
        let apart : text_eq k.tenant_id own ≡ false = ground (arith, e) in
        rw (revoke-some m own id now k h, apart) (same-NoNewRoot m.keys m.keys refl)
    | yes e ↦
        let found : text_eq k.tenant_id own ≡ true = ground (arith, e) in
        rw (revoke-some m own id now k h, found)
          (insert-NoNewRoot m.keys id (revoked k now)
            (λ r. (k, h, sym (revoked-root k now).0 ∙ r, sym (revoked-root k now).1)))
  ]
]

mint-NoNewRoot :
    (hash : Text → Text) (m : Memory) (own : Text) (p : Plane) (name scope : Text) (e : Option ℕ)
    (id token : Text) (now : ℕ)
    → scope ≢ scope_root
    → NoNewRoot m.keys (create_api_key hash m own p name scope e id token now).0.keys
unfolding create_api_key minted with_key is_root
mint-NoNewRoot hash m own p name scope e id token now other =
    elim (may_mint m own p scope)
      as (λ o.
        NoNewRoot m.keys
          (elim o as (λ _. Memory × Result (ApiKey × Text)) [
            | err x ↦ (m, err x)
            | ok _ ↦ (
              with_key m (minted hash m own p name scope e id token now),
              ok (minted hash m own p name scope e id token now, generate_api_key p m.dev token),
            )
          ]).0.keys) [
            | err x ↦ same-NoNewRoot m.keys m.keys refl
            | ok _ ↦
                insert-NoNewRoot m.keys id (minted hash m own p name scope e id token now)
                  (λ r. absurd (ground (arith, r, other)))
          ]

effect-NoNewRoot :
    (hash : Text → Text) (d : Draw) (own : Text) (m m' : Memory)
    → Effect hash d own m m'
    → NoNewRoot m.keys m'.keys
unfolding create_provider update_provider delete_provider upsert_alias delete_alias upsert_route
    delete_route create_webhook delete_webhook set_quota delete_quota
effect-NoNewRoot hash d own m m' nothing = same-NoNewRoot m.keys m.keys refl
effect-NoNewRoot hash d own m m' (new_provider p now q) = same-NoNewRoot m.keys _ (ground arith)
effect-NoNewRoot hash d own m m' (new_settings id p) = same-NoNewRoot m.keys _ (ground arith)
effect-NoNewRoot hash d own m m' (no_provider id) = same-NoNewRoot m.keys _ (ground arith)
effect-NoNewRoot hash d own m m' (new_alias a now q) = same-NoNewRoot m.keys _ (ground arith)
effect-NoNewRoot hash d own m m' (no_alias name) = same-NoNewRoot m.keys _ (ground arith)
effect-NoNewRoot hash d own m m' (new_route r now q) = same-NoNewRoot m.keys _ (ground arith)
effect-NoNewRoot hash d own m m' (no_route id) = same-NoNewRoot m.keys _ (ground arith)
effect-NoNewRoot hash d own m m' (new_webhook w now q) = same-NoNewRoot m.keys _ (ground arith)
effect-NoNewRoot hash d own m m' (no_webhook id) = same-NoNewRoot m.keys _ (ground arith)
effect-NoNewRoot hash d own m m' (new_quota q now e) = same-NoNewRoot m.keys _ (ground arith)
effect-NoNewRoot hash d own m m' (no_quota key) = same-NoNewRoot m.keys _ (ground arith)
effect-NoNewRoot hash d own m m' (new_key p name scope e other) =
    mint-NoNewRoot hash m own p name scope e (d.id 0) d.token d.now other
effect-NoNewRoot hash d own m m' (no_key id) = revoke-NoNewRoot m own id d.now

audited-keys :
    (key : Option ApiKey) (r : AuditedRequest) (status : ℕ) (id : Text) (now : ℕ) (g : Gateway)
    → (audited key r status id now g).store.keys ≡ g.store.keys
unfolding audited record_audit
audited-keys none r status id now g = refl
audited-keys (some k) r status id now g = ground arith

module _ (x : Externals) (conf : AdminConfig) (g : Gateway) (k : ApiKey)
    (limited : is_root k ≡ false) (d : Draw) (path request_id audit_id : Text)
    (call : AdminCall) where
  abbrev after : Gateway × (ApiError ⊎ ℕ)
  after = administer x conf path request_id (some k) call d audit_id g

  -- Whatever a key that is not of root scope calls on the admin plane, a key of root scope in the table afterwards was
  -- one before, under the same id and with the same credential.
  pub root_key_was_root :
      (id : Text) (j : ApiKey)
      → lookup text_dec id after.0.store.keys ≡ some j
      → is_root j ≡ true
      → (i : ApiKey) × (lookup text_dec id g.store.keys ≡ some i)
        × (is_root i ≡ true)
        × (i.hash ≡ j.hash)
  unfolding administer
  root_key_was_root =
      subst (λ ks. NoNewRoot g.store.keys ks)
        (sym (audited-keys (some k) _ _ audit_id d.now (answer_call x conf (some k) call d g).0))
        (effect-NoNewRoot x.hash d (trim_scope k.scope) g.store _
          (answer_call-Does x conf d g k limited call).0)
