-- ===== src/Admin/Effects/Resources.antt =====
-- The handlers on aliases, routes, quotas, webhooks, catalogs and answers, for a caller that is not of root scope: what
-- they leave of another tenant.
use cogni_gate.Prelude.{
  ℕ, ◌≡◌, ◌≢◌, ◌∙◌, refl, ap, arith, inl, inr, ◌⊎◌, false, Option, some, List, [], ◌∷◌, Text, codes,
  trim_space,
}
use cogni_gate.Memory.{ApiKey, Tenant, Result, ok, err}
use cogni_gate.Memory.Tenants.{get_tenant}
use cogni_gate.Memory.Rules.{upsert_alias}
use cogni_gate.Catalog.Tenants.{Catalog, snapshot_of}
use cogni_gate.Catalog.Others.{refresh_now-other, get_snapshot-other}
use cogni_gate.Server.ApiErrors.{ApiError}
use cogni_gate.Admin.{Gateway, AdminConfig, Externals, Draw, is_root, trim_scope, unchanged}
use cogni_gate.Admin.Providers.{non_empty}
use cogni_gate.Admin.Rules.{
  AliasRequest, RouteRequest, alias_name_error, cost_tier_error, clash_error, alias_of, route_of,
  chain_error, upstreams_of, read_catalog, upsert_alias_call, delete_alias_call, upsert_route_call,
  delete_route_call,
}
use cogni_gate.Admin.Webhooks.{
  WebhookRequest, webhook_of, webhook_error, create_webhook_call, delete_webhook_call,
}
use cogni_gate.Admin.Reports.{
  refresh_targets, missing_target, refresh_all, refresh_targets_of, refresh_catalog, flush_of,
  flush_tenant_cache,
}
use cogni_gate.Admin.Effects.{
  store_reply-plain, Effect, nothing, new_alias, no_alias, new_route, no_route, new_webhook,
  no_webhook, Does, refl-Does, checked-Does, parsed-Does, store_reply-Does, scoped-Does,
}

module _ (x : Externals) (d : Draw) (g : Gateway) (k : ApiKey) (limited : is_root k ≡ false) where
  abbrev own : Text
  own = trim_scope k.scope

  pub upsert_alias-Does :
      (path raw : Text) (body : Option AliasRequest)
      → Does x d own g (upsert_alias_call x (some k) path raw body d g).0
  unfolding upsert_alias_call alias_of read_catalog unchanged
  upsert_alias-Does path raw body = scoped-Does x d g k limited path _ (
      checked-Does x d own g (alias_name_error (trim_space raw)) g _ (refl-Does x d own g) (λ _.
        parsed-Does x d own g body g _ (refl-Does x d own g) (λ r.
          let read = read_catalog x own d.now g in
          let h : Gateway = record g { catalog = read.1 } in
          let elsewhere : (t : Text) → own ≢ t → snapshot_of t read.1 ≡ snapshot_of t g.catalog =
            λ t n. get_snapshot-other t own (upstreams_of x g.store own) d.now g.catalog n in
          let saved : Effect x.hash d own g.store
              (upsert_alias g.store (alias_of own (trim_space raw) r) (d.id 0) d.now).0 =
            new_alias (alias_of own (trim_space raw) r) d.now refl in
          checked-Does x d own g (cost_tier_error r.cost_tier) g _ (refl-Does x d own g) (λ _.
            checked-Does x d own g (clash_error x (trim_space raw) read.0) h _ (nothing, elsewhere)
              (λ _.
                store_reply-Does x d own g (codes "alias") (trim_space raw) 200 h _ unchanged
                  (saved, elsewhere) (saved, elsewhere))))))

  pub delete_alias-Does :
      (path name : Text) → Does x d own g (delete_alias_call x (some k) path name g).0
  unfolding delete_alias_call
  delete_alias-Does path name =
      scoped-Does x d g k limited path _
        (store_reply-plain x d own g (codes "alias") name 204 _ (no_alias name))

  pub upsert_route-Does :
      (conf : AdminConfig) (path : Text) (body : Option RouteRequest)
      → Does x d own g (upsert_route_call x conf (some k) path body d g).0
  unfolding upsert_route_call route_of
  upsert_route-Does conf path body = scoped-Does x d g k limited path _ (
      parsed-Does x d own g body g _ (refl-Does x d own g) (λ r.
        checked-Does x d own g _ g _ (refl-Does x d own g) (λ _.
          checked-Does x d own g (chain_error x conf.max_fallback_depth (non_empty r.chain)) g _
            (refl-Does x d own g)
            (λ _.
              store_reply-plain x d own g (codes "route") (trim_space r.match) 200 _
                (new_route (route_of own (trim_space r.match) (non_empty r.chain)) d.now refl)))))

  pub delete_route-Does :
      (path id : Text) → Does x d own g (delete_route_call x (some k) path id g).0
  unfolding delete_route_call
  delete_route-Does path id =
      scoped-Does x d g k limited path _
        (store_reply-plain x d own g (codes "route") id 204 _ (no_route id))

  pub create_webhook-Does :
      (path : Text) (body : Option WebhookRequest)
      → Does x d own g (create_webhook_call x (some k) path body d g).0
  unfolding create_webhook_call webhook_of
  create_webhook-Does path body = scoped-Does x d g k limited path _ (
      parsed-Does x d own g body g _ (refl-Does x d own g) (λ r.
        checked-Does x d own g (webhook_error x r) g _ (refl-Does x d own g) (λ _.
          store_reply-plain x d own g (codes "tenant") own 201 _
            (new_webhook (webhook_of own r) d.now refl))))

  pub delete_webhook-Does :
      (path id : Text) → Does x d own g (delete_webhook_call x (some k) path id g).0
  unfolding delete_webhook_call
  delete_webhook-Does path id =
      scoped-Does x d g k limited path _
        (store_reply-plain x d own g (codes "webhook") id 204 _ (no_webhook id))

  flush_of-Does : (r : Result Tenant) → Does x d own g (flush_of x own g r).0
  unfolding flush_of
  flush_of-Does (err e) = refl-Does x d own g
  flush_of-Does (ok _) = (nothing, λ t n. refl)

  pub flush_tenant_cache-Does :
      (path : Text) → Does x d own g (flush_tenant_cache x (some k) path g).0
  unfolding flush_tenant_cache
  flush_tenant_cache-Does path =
      scoped-Does x d g k limited path _ (flush_of-Does (get_tenant g.store own))

  refresh_all-own :
      (t : Text) (n : own ≢ t) (now : ℕ) (c : Catalog)
      → snapshot_of t (refresh_all x g.store now (own ∷ []) c).1 ≡ snapshot_of t c
  unfolding refresh_all
  refresh_all-own t n now c = refresh_now-other t own (upstreams_of x g.store own) now c n

  targets-own :
      (asked : Text) (targets : List Text)
      → refresh_targets x (some k) asked g.store ≡ inr targets
      → targets ≡ own ∷ []
  unfolding refresh_targets
  targets-own asked targets h = ground (arith, h, limited)

  refresh_targets_of-Does :
      (asked : Text) (now : ℕ) (r : ApiError ⊎ List Text)
      → ((targets : List Text) → r ≡ inr targets → targets ≡ own ∷ [])
      → Does x d own g (refresh_targets_of x asked now g r).0
  unfolding refresh_targets_of
  refresh_targets_of-Does asked now (inl e) only = refl-Does x d own g
  refresh_targets_of-Does asked now (inr targets) only =
      checked-Does x d own g (missing_target x asked g.store) g _ (refl-Does x d own g) (λ _. (
        nothing,
        λ t n.
            ap (λ ids. snapshot_of t (refresh_all x g.store now ids g.catalog).1)
              (only targets refl)
            ∙ refresh_all-own t n now g.catalog,
      ))

  pub refresh_catalog-Does :
      (body : Option Text) → Does x d own g (refresh_catalog x (some k) body d g).0
  unfolding refresh_catalog
  refresh_catalog-Does body = parsed-Does x d own g body g _ (refl-Does x d own g) (λ raw.
      refresh_targets_of-Does (trim_space raw) d.now
        (refresh_targets x (some k) (trim_space raw) g.store) (targets-own (trim_space raw)))
