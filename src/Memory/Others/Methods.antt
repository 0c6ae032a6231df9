-- ===== src/Memory/Others/Methods.antt =====
-- Each method of the store that writes, at a tenant other than the one it is called for.
use cogni_gate.Prelude.{
  ℕ, ◌∙◌, some_inj, ◌≡◌, ◌≢◌, sym, ap, arith, inl, inr, true, false, Option, Text, text_dec,
  text_eq, lookup, Option-cases, if_keeps, option_keeps,
}
use cogni_gate.Store.{Provider, Alias, Route}
use cogni_gate.Quota.{Quota}
use cogni_gate.Memory.Tables.{
  Memory, ApiKey, Plane, Webhook, Result, ok, err, rows, has_tenant, remove_first,
}
use cogni_gate.Memory.ApiKeys.{create_api_key, revoke_api_key, minted, with_key, may_mint, revoked}
use cogni_gate.Memory.ApiKeys.Calls.{revoke-none, revoke-some}
use cogni_gate.Memory.Credentials.{generate_api_key}
use cogni_gate.Memory.Providers.{
  ProviderPatch, create_provider, update_provider, delete_provider, name_registered, named,
  update_first, patched_provider,
}
use cogni_gate.Memory.Rules.{
  upsert_alias, delete_alias, is_alias_named, upsert_route, delete_route, is_route_named,
  create_webhook, delete_webhook,
}
use cogni_gate.Memory.Quotas.{set_quota, delete_quota, quota_key}
use cogni_gate.Memory.Others.{
  Same, refl-Same, put_providers-Same, put_aliases-Same, put_routes-Same, put_webhooks-Same,
  put_key-Same, put_quota-Same, drop_quota-Same, Foreign,
}

-- The state of a result is the same for a tenant.
abbrev pub Leaves : {A : Type 0} → Text → Memory → Memory × A → Type 0
Leaves t m r = Same t m r.0

module _ (t : Text) (m : Memory) where
  pub create_provider-Same :
      (p : Provider) (id : Text) (now : ℕ)
      → p.tenant_id ≢ t
      → Same t m (create_provider m p id now).0
  unfolding create_provider
  create_provider-Same p id now n =
      if_keeps (Leaves t m) (has_tenant m p.tenant_id) _ _
        (if_keeps (Leaves t m) (name_registered p.name (rows m.providers p.tenant_id)) _ _
          (refl-Same t m) (put_providers-Same t m p.tenant_id n _))
        (refl-Same t m)

  pub update_provider-Same :
      (own id : Text) (patch : ProviderPatch)
      → own ≢ t
      → Same t m (update_provider m own id patch).0
  unfolding update_provider
  update_provider-Same own id patch n =
      option_keeps (Leaves t m)
        (update_first (named id) (patched_provider patch) (rows m.providers own)) _ _
        (refl-Same t m) (λ r. put_providers-Same t m own n r.0)

  pub delete_provider-Same : (own id : Text) → own ≢ t → Same t m (delete_provider m own id).0
  unfolding delete_provider
  delete_provider-Same own id n =
      option_keeps (Leaves t m) (remove_first (named id) (rows m.providers own)) _ _ (refl-Same t m)
        (λ ps. put_providers-Same t m own n ps)

  pub upsert_alias-Same :
      (a : Alias) (id : Text) (now : ℕ) → a.tenant_id ≢ t → Same t m (upsert_alias m a id now).0
  unfolding upsert_alias
  upsert_alias-Same a id now n =
      if_keeps (Leaves t m) (has_tenant m a.tenant_id) _ _ (put_aliases-Same t m a.tenant_id n _)
        (refl-Same t m)

  pub delete_alias-Same : (own name : Text) → own ≢ t → Same t m (delete_alias m own name).0
  unfolding delete_alias
  delete_alias-Same own name n =
      option_keeps (Leaves t m) (remove_first (is_alias_named name) (rows m.aliases own)) _ _
        (refl-Same t m) (λ xs. put_aliases-Same t m own n xs)

  pub upsert_route-Same :
      (r : Route) (id : Text) (now : ℕ) → r.tenant_id ≢ t → Same t m (upsert_route m r id now).0
  unfolding upsert_route
  upsert_route-Same r id now n =
      if_keeps (Leaves t m) (has_tenant m r.tenant_id) _ _ (put_routes-Same t m r.tenant_id n _)
        (refl-Same t m)

  pub delete_route-Same : (own id : Text) → own ≢ t → Same t m (delete_route m own id).0
  unfolding delete_route
  delete_route-Same own id n =
      option_keeps (Leaves t m) (remove_first (is_route_named id) (rows m.routes own)) _ _
        (refl-Same t m) (λ xs. put_routes-Same t m own n xs)

  pub create_webhook-Same :
      (w : Webhook) (id : Text) (now : ℕ) → w.tenant_id ≢ t → Same t m (create_webhook m w id now).0
  unfolding create_webhook
  create_webhook-Same w id now n =
      if_keeps (Leaves t m) (has_tenant m w.tenant_id) _ _ (put_webhooks-Same t m w.tenant_id n _)
        (refl-Same t m)

  pub delete_webhook-Same : (own id : Text) → own ≢ t → Same t m (delete_webhook m own id).0
  unfolding delete_webhook
  delete_webhook-Same own id n =
      option_keeps (Leaves t m)
        (remove_first (λ (w : Webhook). text_eq w.id id) (rows m.webhooks own)) _ _ (refl-Same t m)
        (λ xs. put_webhooks-Same t m own n xs)

  pub set_quota-Same :
      (q : Quota) (now : ℕ)
      → ((key : Text) → quota_key q.tenant_id q.key_id ≢ quota_key t key)
      → Same t m (set_quota m q now).0
  unfolding set_quota
  set_quota-Same q now n =
      if_keeps (Leaves t m) (has_tenant m q.tenant_id) _ _
        (put_quota-Same t m (quota_key q.tenant_id q.key_id) n _) (refl-Same t m)

  pub delete_quota-Same :
      (own key : Text)
      → ((k : Text) → quota_key own key ≢ quota_key t k)
      → Same t m (delete_quota m own key).0
  unfolding delete_quota
  delete_quota-Same own key n =
      option_keeps (Leaves t m) (lookup text_dec (quota_key own key) m.quotas) _ _ (refl-Same t m)
        (λ _. drop_quota-Same t m (quota_key own key) n)

  revoked-tenant : (k : ApiKey) (now : ℕ) → (revoked k now).tenant_id ≡ k.tenant_id
  unfolding revoked
  revoked-tenant k now = ground arith

  pub revoke_api_key-Same :
      (own id : Text) (now : ℕ) → own ≢ t → Same t m (revoke_api_key m own id now).0
  revoke_api_key-Same own id now n = elim (Option-cases (lookup text_dec id m.keys)) [
    | inl h ↦ rw (revoke-none m own id now h) (refl-Same t m)
    | inr (k, h) ↦ elim (text_dec k.tenant_id own) [
      | no e ↦
          let apart : text_eq k.tenant_id own ≡ false = ground (arith, e) in
          rw (revoke-some m own id now k h, apart) (refl-Same t m)
      | yes e ↦
          let found : text_eq k.tenant_id own ≡ true = ground (arith, e) in
          let other : k.tenant_id ≢ t = λ q. n (sym e ∙ q) in
          rw (revoke-some m own id now k h, found)
            (put_key-Same t m id (revoked k now) (λ q. other (sym (revoked-tenant k now) ∙ q))
              (λ j q. λ r. other (ap (λ (x : ApiKey). x.tenant_id) (some_inj k j (sym h ∙ q)) ∙ r))
              m.keys_by_hash)
    ]
  ]

  pub create_api_key-Same :
      (hash : Text → Text) (own : Text) (p : Plane) (name scope : Text) (e : Option ℕ)
      (id token : Text) (now : ℕ)
      → own ≢ t
      → Foreign t id m.keys
      → Same t m (create_api_key hash m own p name scope e id token now).0
  unfolding create_api_key minted with_key
  create_api_key-Same hash own p name scope e id token now n foreign =
      elim (may_mint m own p scope)
        as (λ o.
          Same t m
            (elim o as (λ _. Memory × Result (ApiKey × Text)) [
              | err x ↦ (m, err x)
              | ok _ ↦ (
                with_key m (minted hash m own p name scope e id token now),
                ok (minted hash m own p name scope e id token now, generate_api_key p m.dev token),
              )
            ]).0) [
              | err x ↦ refl-Same t m
              | ok _ ↦
                  put_key-Same t m id (minted hash m own p name scope e id token now) n foreign _
            ]
