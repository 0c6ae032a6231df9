-- ===== src/Admin/Isolation.antt =====
-- What a call of the admin plane by a key that is not of root scope leaves as it was.
use cogni_gate.Prelude.{
  ℕ, ◌≡◌, ◌≢◌, ◌∙◌, sym, subst, arith, false, Option, none, some, Text, text_dec, lookup,
  option_keeps,
}
use cogni_gate.Memory.{Memory, ApiKey, AuditEntry}
use cogni_gate.Memory.History.{record_audit}
use cogni_gate.Memory.ApiKeys.{list_api_keys}
use cogni_gate.Memory.Quotas.{get_quota, quota_key}
use cogni_gate.Memory.Others.{Same, refl-Same, Foreign}
use cogni_gate.Memory.Others.Methods.{
  create_provider-Same, update_provider-Same, delete_provider-Same, upsert_alias-Same,
  delete_alias-Same, upsert_route-Same, delete_route-Same, create_webhook-Same, delete_webhook-Same,
  set_quota-Same, delete_quota-Same, revoke_api_key-Same, create_api_key-Same,
}
use cogni_gate.Catalog.Tenants.{snapshot_of}
use cogni_gate.Server.Completions.Replays.{NulFree, nul_split}
use cogni_gate.Admin.{Gateway, AdminConfig, Externals, Draw, is_root, trim_scope}
use cogni_gate.Admin.Audit.{AuditedRequest, audited, audit_action, audit_entry}
use cogni_gate.Admin.Calls.{AdminCall, answer_call, status_of, administer}
use cogni_gate.Admin.Effects.{
  Effect, nothing, new_provider, new_settings, no_provider, new_alias, no_alias, new_route,
  no_route, new_webhook, no_webhook, new_quota, no_quota, new_key, no_key,
}
use cogni_gate.Admin.Effects.Serving.{answer_call-Does}

-- The store's rows of a tenant, as its methods read them, and the tenant's catalog are as they were.
abbrev pub Untouched : Text → Gateway → Gateway → Type 0
Untouched t g g' = Same t g.store g'.store × (snapshot_of t g'.catalog ≡ snapshot_of t g.catalog)

quota_key-apart :
    (own t key : Text)
    → NulFree own
    → NulFree t
    → own ≢ t
    → (k : Text) → quota_key own key ≢ quota_key t k
unfolding quota_key
quota_key-apart own t key clean clean' n k e = n (nul_split own t key k clean clean' e).0

-- A new id is nobody's.
fresh-Foreign : (t id : Text) (m : Memory) → lookup text_dec id m.keys ≡ none → Foreign t id m.keys
fresh-Foreign t id m fresh j h = absurd (ground (arith, h, fresh))

effect-Same :
    (hash : Text → Text) (d : Draw) (own t : Text) (m m' : Memory)
    → own ≢ t
    → NulFree own
    → NulFree t
    → lookup text_dec (d.id 0) m.keys ≡ none
    → Effect hash d own m m'
    → Same t m m'
effect-Same hash d own t m m' n clean clean' fresh nothing = refl-Same t m
effect-Same hash d own t m m' n clean clean' fresh (new_provider p now q) =
    create_provider-Same t m p (d.id 0) now (λ e. n (sym q ∙ e))
effect-Same hash d own t m m' n clean clean' fresh (new_settings id p) =
    update_provider-Same t m own id p n
effect-Same hash d own t m m' n clean clean' fresh (no_provider id) =
    delete_provider-Same t m own id n
effect-Same hash d own t m m' n clean clean' fresh (new_alias a now q) =
    upsert_alias-Same t m a (d.id 0) now (λ e. n (sym q ∙ e))
effect-Same hash d own t m m' n clean clean' fresh (no_alias name) =
    delete_alias-Same t m own name n
effect-Same hash d own t m m' n clean clean' fresh (new_route r now q) =
    upsert_route-Same t m r (d.id 0) now (λ e. n (sym q ∙ e))
effect-Same hash d own t m m' n clean clean' fresh (no_route id) = delete_route-Same t m own id n
effect-Same hash d own t m m' n clean clean' fresh (new_webhook w now q) =
    create_webhook-Same t m w (d.id 0) now (λ e. n (sym q ∙ e))
effect-Same hash d own t m m' n clean clean' fresh (no_webhook id) =
    delete_webhook-Same t m own id n
effect-Same hash d own t m m' n clean clean' fresh (new_quota q now e) = set_quota-Same t m q now (
    subst (λ o. (key : Text) → quota_key o q.key_id ≢ quota_key t key) (sym e)
      (quota_key-apart own t q.key_id clean clean' n))
effect-Same hash d own t m m' n clean clean' fresh (no_quota key) =
    delete_quota-Same t m own key (quota_key-apart own t key clean clean' n)
effect-Same hash d own t m m' n clean clean' fresh (new_key p name scope e other) =
    create_api_key-Same t m hash own p name scope e (d.id 0) d.token d.now n
      (fresh-Foreign t (d.id 0) m fresh)
effect-Same hash d own t m m' n clean clean' fresh (no_key id) =
    revoke_api_key-Same t m own id d.now n

audit-Same :
    (t : Text) (m m' : Memory) (e : AuditEntry) (id : Text) (now : ℕ)
    → Same t m m'
    → Same t m (record_audit m' e id now)
unfolding record_audit list_api_keys get_quota
audit-Same t m m' e id now h = record {
  tenant = h.tenant;
  providers = h.providers;
  aliases = h.aliases;
  routes = h.routes;
  webhooks = h.webhooks;
  events = h.events;
  usage = h.usage;
  keys = h.keys;
  quotas = h.quotas;
}

audited-Untouched :
    (t : Text) (g g' : Gateway) (key : Option ApiKey) (r : AuditedRequest) (status : ℕ) (id : Text)
    (now : ℕ)
    → Untouched t g g'
    → Untouched t g (audited key r status id now g')
unfolding audited
audited-Untouched t g g' none r status id now h = h
audited-Untouched t g g' (some k) r status id now h =
    option_keeps (λ (f : Gateway). Untouched t g f) (audit_action r.method) _ _ h
      (λ action. (audit-Same t g.store g'.store (audit_entry k action r status) id now h.0, h.1))

module _ (x : Externals) (conf : AdminConfig) (g : Gateway) (t : Text) (k : ApiKey)
    (limited : is_root k ≡ false) (n : trim_scope k.scope ≢ t)
    (clean : NulFree (trim_scope k.scope)) (clean' : NulFree t) (d : Draw)
    (fresh : lookup text_dec (d.id 0) g.store.keys ≡ none) where
  -- Whatever a key that is not of root scope calls on the admin plane, with whatever tenant in the path and whatever
  -- body, every tenant other than the one of its scope keeps its record, providers, aliases, routes, webhooks, events,
  -- usage, keys, quotas and catalog as they were; where neither id has a NUL byte and the id drawn for a
  -- new key is new.
  pub administer-Untouched :
      (path request_id audit_id : Text) (call : AdminCall)
      → Untouched t g (administer x conf path request_id (some k) call d audit_id g).0
  unfolding administer
  administer-Untouched path request_id audit_id call =
      audited-Untouched t g (answer_call x conf (some k) call d g).0 (some k) _
        (status_of (answer_call x conf (some k) call d g).1) audit_id d.now
        (
          effect-Same x.hash d (trim_scope k.scope) t g.store _ n clean clean' fresh
              (answer_call-Does x conf d g k limited call).0,
          (answer_call-Does x conf d g k limited call).1 t n,
        )
