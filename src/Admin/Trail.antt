-- ===== src/Admin/Trail.antt =====
-- What the handlers of the admin plane leave of the audit log: the audit behind them is the one that writes it.
pub mod Entries
use cogni_gate.Prelude.{
  ℕ, ◌≡◌, ◌∙◌, refl, sym, ap, arith, inl, inr, Bool, true, false, Option, none, some, List, [], ◌∷◌,
  ◌++◌, if◌then◌else◌, Text, codes, ◌⊎◌, ◌+◌,
}
use cogni_gate.Store.{Alias}
use cogni_gate.Memory.{Memory, ApiKey, Plane, AuditEntry, Result, ok, err, last_of}
use cogni_gate.Memory.History.{record_audit, max_memory_audit_entries}
use cogni_gate.Memory.Tenants.{create_tenant, update_tenant, delete_tenant, without_tenant}
use cogni_gate.Memory.ApiKeys.{create_api_key, revoke_api_key, with_key}
use cogni_gate.Memory.Providers.{create_provider, update_provider, delete_provider}
use cogni_gate.Memory.Rules.{
  upsert_alias, delete_alias, upsert_route, delete_route, create_webhook, delete_webhook,
}
use cogni_gate.Memory.Quotas.{set_quota, delete_quota}
use cogni_gate.Server.ApiErrors.{ApiError}
use cogni_gate.Admin.{
  Gateway, AdminConfig, Externals, Draw, Reply, replied, failed, tenant_scope, scoped, checked,
  parsed, store_reply, unchanged,
}
use cogni_gate.Admin.Tenants.{
  TenantUpdate, seeded_aliases, seed_aliases, purged, viewed, create_tenant_call,
  update_tenant_call, delete_tenant_call,
}
use cogni_gate.Admin.Keys.{
  KeyRequest, minted_key, mint, asked_plane, create_key_in, create_key, create_admin_key,
  revoke_admin_key, revoke_key,
}
use cogni_gate.Admin.Providers.{
  ProviderRequest, ProviderUpdate, with_catalog_dropped, create_provider_call, update_provider_call,
  delete_provider_call,
}
use cogni_gate.Admin.Rules.{
  AliasRequest, RouteRequest, upsert_alias_call, delete_alias_call, upsert_route_call,
  delete_route_call,
}
use cogni_gate.Admin.Quotas.{
  QuotaRequest, at_target, set_quota_in, set_quota_call, delete_quota_call, with_quotas_forgotten,
}
use cogni_gate.Admin.Webhooks.{WebhookRequest, create_webhook_call, delete_webhook_call}
use cogni_gate.Admin.Reports.{refresh_targets_of, refresh_catalog, flush_of, flush_tenant_cache}
use cogni_gate.Admin.Audit.{AuditedRequest, audit_action, audit_entry, audited}
use cogni_gate.Admin.Calls.{
  AdminCall, post_tenant, patch_tenant, drop_tenant, post_key, post_admin_key, drop_admin_key,
  drop_key, post_provider, patch_provider, drop_provider, put_alias, drop_alias, put_route,
  drop_route, put_quota, drop_quota, post_webhook, drop_webhook, post_refresh, post_flush,
  method_of, asked, sealed, status_of, answer_call, administer,
}

seed_aliases-audit :
    (d : Draw) (n : ℕ) (tenant : Text) (seeds : List Alias) (m : Memory)
    → (seed_aliases d n tenant seeds m).audit ≡ m.audit
unfolding seed_aliases upsert_alias
seed_aliases-audit d n tenant [] m = refl
seed_aliases-audit d n tenant (a ∷ rest) m =
    seed_aliases-audit d (n + 1) tenant rest
      (upsert_alias m (record a { tenant_id = tenant }) (d.id n) d.now).0
    ∙ ground arith

-- The log of a state is the one of another.
abbrev SameLog : Gateway → Gateway → Type 0
SameLog g h = h.store.audit ≡ g.store.audit

sealed-audit :
    {A : Type 0} (g : Gateway) (r : Gateway × Reply A) → SameLog g r.0 → SameLog g (sealed r).0
unfolding sealed
sealed-audit g (h, replied _ _) e = e
sealed-audit g (h, failed _) e = e

store_reply-audit :
    {A : Type 0} (x : Externals) (kind id : Text) (status : ℕ) (g : Gateway) (r : Memory × Result A)
    (after : Gateway → Gateway)
    → r.0.audit ≡ g.store.audit
    → ((h : Gateway) → SameLog h (after h))
    → SameLog g (store_reply x kind id status g r after).0
unfolding store_reply
store_reply-audit x kind id status g (m, err e) after h there = h
store_reply-audit x kind id status g (m, ok a) after h there = there (record g { store = m }) ∙ h

parsed-audit :
    {A R : Type 0} (x : Externals) (body : Option R) (g : Gateway) (rest : R → Gateway × Reply A)
    → ((r : R) → SameLog g (rest r).0)
    → SameLog g (parsed x body g rest).0
unfolding parsed
parsed-audit x none g rest h = refl
parsed-audit x (some r) g rest h = h r

checked-audit :
    {A : Type 0} (x : Externals) (e : Option ApiError) (g : Gateway) (rest : Gateway × Reply A)
    → SameLog g rest.0
    → SameLog g (checked x e g rest).0
unfolding checked
checked-audit x none g rest h = h
checked-audit x (some e) g rest h = refl

scoped-audit :
    {A : Type 0} (x : Externals) (key : Option ApiKey) (path : Text) (g : Gateway)
    (rest : Text → Gateway × Reply A)
    → ((id : Text) → SameLog g (rest id).0)
    → SameLog g (scoped x key path g rest).0
unfolding scoped
scoped-audit {A = A} x key path g rest h = go (tenant_scope x key path)
  where
    go :
        (o : ApiError ⊎ Text)
        → SameLog g
            (elim o as (λ _. Gateway × Reply A) [ inl e ↦ (g, failed e) | inr id ↦ rest id ]).0
    go (inl e) = refl
    go (inr id) = h id

module _ (x : Externals) (conf : AdminConfig) (key : Option ApiKey) (d : Draw) (g : Gateway) where
  created_store-audit :
      (name : Text) → (create_tenant g.store name (d.id 0) d.now).0.audit ≡ g.store.audit
  unfolding create_tenant
  created_store-audit name = ground arith

  created-audit : (body : Option Text) → SameLog g (create_tenant_call x conf key body d g).0
  unfolding create_tenant_call
  created-audit body = checked-audit x _ g _ (
      parsed-audit x body g _ (λ name. checked-audit x _ g _ (
        store_reply-audit x (codes "tenant") name 201 g _ _ (created_store-audit name)
          (λ h. seed_aliases-audit d 1 (d.id 0) seeded_aliases h.store))))

  updated-audit :
      (id : Text) (body : Option TenantUpdate)
      → SameLog g (update_tenant_call x conf key id body g).0
  unfolding update_tenant_call checked parsed store_reply viewed update_tenant unchanged
  updated-audit id body = ground arith

  dropped-audit : (id confirm : Text) → SameLog g (delete_tenant_call x conf key id confirm g).0
  unfolding delete_tenant_call checked store_reply delete_tenant without_tenant purged
  dropped-audit id confirm = ground arith

  create_key_in-audit :
      (tenant : Text) (r : KeyRequest) (plane : Option Plane)
      → SameLog g (create_key_in x key tenant r plane d g).0
  unfolding create_key_in checked mint store_reply minted_key create_api_key with_key unchanged
  create_key_in-audit tenant r plane = ground arith

  keyed-audit :
      (path : Text) (body : Option KeyRequest) → SameLog g (create_key x key path body d g).0
  unfolding create_key
  keyed-audit path body =
      scoped-audit x key path g _ (λ tenant.
        parsed-audit x body g _ (λ r. create_key_in-audit tenant r (asked_plane r.plane)))

  rooted-audit : (body : Option (Text × Option ℕ)) → SameLog g (create_admin_key x key body d g).0
  unfolding create_admin_key checked parsed mint store_reply minted_key create_api_key with_key
      unchanged
  rooted-audit body = ground arith

  unkeyed-audit : (path id : Text) → SameLog g (revoke_key x key path id d g).0
  unfolding revoke_key scoped store_reply revoke_api_key unchanged
  unkeyed-audit path id = ground arith

  unrooted-audit : (id : Text) → SameLog g (revoke_admin_key x key id d g).0
  unfolding revoke_admin_key checked store_reply revoke_api_key unchanged
  unrooted-audit id = ground arith

  provided-audit :
      (path : Text) (body : Option ProviderRequest)
      → SameLog g (create_provider_call x key path body d g).0
  unfolding create_provider_call scoped parsed checked store_reply create_provider
      with_catalog_dropped
  provided-audit path body = ground arith

  provider_changed-audit :
      (path id : Text) (body : Option ProviderUpdate)
      → SameLog g (update_provider_call x key path id body g).0
  unfolding update_provider_call scoped parsed checked store_reply update_provider
      with_catalog_dropped
  provider_changed-audit path id body = ground arith

  provider_dropped-audit : (path id : Text) → SameLog g (delete_provider_call x key path id g).0
  unfolding delete_provider_call scoped store_reply delete_provider with_catalog_dropped
  provider_dropped-audit path id = ground arith

  aliased-audit :
      (path name : Text) (body : Option AliasRequest)
      → SameLog g (upsert_alias_call x key path name body d g).0
  unfolding upsert_alias_call scoped parsed checked store_reply upsert_alias unchanged
  aliased-audit path name body = ground arith

  unaliased-audit : (path name : Text) → SameLog g (delete_alias_call x key path name g).0
  unfolding delete_alias_call scoped store_reply delete_alias unchanged
  unaliased-audit path name = ground arith

  routed-audit :
      (path : Text) (body : Option RouteRequest)
      → SameLog g (upsert_route_call x conf key path body d g).0
  unfolding upsert_route_call scoped parsed checked store_reply upsert_route unchanged
  routed-audit path body = ground arith

  unrouted-audit : (path id : Text) → SameLog g (delete_route_call x key path id g).0
  unfolding delete_route_call scoped store_reply delete_route unchanged
  unrouted-audit path id = ground arith

  quota_set-audit :
      (path id : Text) (body : Option QuotaRequest)
      → SameLog g (set_quota_call x conf key path id body d g).0
  unfolding set_quota_call at_target scoped parsed set_quota_in store_reply set_quota
      with_quotas_forgotten
  quota_set-audit path id body = ground arith

  quota_dropped-audit : (path id : Text) → SameLog g (delete_quota_call x key path id g).0
  unfolding delete_quota_call at_target scoped store_reply delete_quota with_quotas_forgotten
  quota_dropped-audit path id = ground arith

  hooked-audit :
      (path : Text) (body : Option WebhookRequest)
      → SameLog g (create_webhook_call x key path body d g).0
  unfolding create_webhook_call scoped parsed checked store_reply create_webhook unchanged
  hooked-audit path body = ground arith

  unhooked-audit : (path id : Text) → SameLog g (delete_webhook_call x key path id g).0
  unfolding delete_webhook_call scoped store_reply delete_webhook unchanged
  unhooked-audit path id = ground arith

  refreshed-audit : (body : Option Text) → SameLog g (refresh_catalog x key body d g).0
  unfolding refresh_catalog parsed refresh_targets_of checked
  refreshed-audit body = ground arith

  flushed-audit : (path : Text) → SameLog g (flush_tenant_cache x key path g).0
  unfolding flush_tenant_cache scoped flush_of
  flushed-audit path = ground arith

  pub answered-audit : (call : AdminCall) → SameLog g (answer_call x conf key call d g).0
  unfolding answer_call
  answered-audit (post_tenant b) = sealed-audit g _ (created-audit b)
  answered-audit (patch_tenant i b) = sealed-audit g _ (updated-audit i b)
  answered-audit (drop_tenant i c) = sealed-audit g _ (dropped-audit i c)
  answered-audit (post_key p b) = sealed-audit g _ (keyed-audit p b)
  answered-audit (post_admin_key b) = sealed-audit g _ (rooted-audit b)
  answered-audit (drop_admin_key i) = sealed-audit g _ (unrooted-audit i)
  answered-audit (drop_key p i) = sealed-audit g _ (unkeyed-audit p i)
  answered-audit (post_provider p b) = sealed-audit g _ (provided-audit p b)
  answered-audit (patch_provider p i b) = sealed-audit g _ (provider_changed-audit p i b)
  answered-audit (drop_provider p i) = sealed-audit g _ (provider_dropped-audit p i)
  answered-audit (put_alias p n b) = sealed-audit g _ (aliased-audit p n b)
  answered-audit (drop_alias p n) = sealed-audit g _ (unaliased-audit p n)
  answered-audit (put_route p b) = sealed-audit g _ (routed-audit p b)
  answered-audit (drop_route p i) = sealed-audit g _ (unrouted-audit p i)
  answered-audit (put_quota p i b) = sealed-audit g _ (quota_set-audit p i b)
  answered-audit (drop_quota p i) = sealed-audit g _ (quota_dropped-audit p i)
  answered-audit (post_webhook p b) = sealed-audit g _ (hooked-audit p b)
  answered-audit (drop_webhook p i) = sealed-audit g _ (unhooked-audit p i)
  answered-audit (post_refresh b) = sealed-audit g _ (refreshed-audit b)
  answered-audit (post_flush p) = sealed-audit g _ (flushed-audit p)
