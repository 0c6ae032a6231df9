-- ===== src/Admin/Effects/Serving.antt =====
-- Every call of the admin plane by a key that is not of root scope, as an effect, and what an effect leaves alone.
use cogni_gate.Prelude.{◌≡◌, false, some}
use cogni_gate.Memory.{ApiKey}
use cogni_gate.Admin.{Gateway, AdminConfig, Externals, Draw, is_root, trim_scope}
use cogni_gate.Admin.Tenants.{create_tenant_call, update_tenant_call, delete_tenant_call}
use cogni_gate.Admin.Keys.{create_admin_key, revoke_admin_key}
use cogni_gate.Admin.Calls.{
  AdminCall, post_tenant, patch_tenant, drop_tenant, post_key, post_admin_key, drop_admin_key,
  drop_key, post_provider, patch_provider, drop_provider, put_alias, drop_alias, put_route,
  drop_route, put_quota, drop_quota, post_webhook, drop_webhook, post_refresh, post_flush,
  answer_call,
}
use cogni_gate.Admin.Effects.{Does, sealed-Does, root-Does}
use cogni_gate.Admin.Effects.Handlers.{
  create_provider-Does, update_provider-Does, delete_provider-Does, create_key-Does,
  revoke_key-Does,
}
use cogni_gate.Admin.Effects.Resources.{
  upsert_alias-Does, delete_alias-Does, upsert_route-Does, delete_route-Does, create_webhook-Does,
  delete_webhook-Does, flush_tenant_cache-Does, refresh_catalog-Does,
}
use cogni_gate.Admin.Effects.Quotas.{set_quota-Does, delete_quota-Does}

module _ (x : Externals) (conf : AdminConfig) (d : Draw) (g : Gateway) (k : ApiKey)
    (limited : is_root k ≡ false) where
  pub answer_call-Does :
      (call : AdminCall) → Does x d (trim_scope k.scope) g (answer_call x conf (some k) call d g).0
  unfolding answer_call create_tenant_call update_tenant_call delete_tenant_call create_admin_key
      revoke_admin_key
  answer_call-Does (post_tenant body) =
      sealed-Does x d (trim_scope k.scope) g _ (root-Does x d g k limited _)
  answer_call-Does (patch_tenant id body) =
      sealed-Does x d (trim_scope k.scope) g _ (root-Does x d g k limited _)
  answer_call-Does (drop_tenant id confirm) =
      sealed-Does x d (trim_scope k.scope) g _ (root-Does x d g k limited _)
  answer_call-Does (post_admin_key body) =
      sealed-Does x d (trim_scope k.scope) g _ (root-Does x d g k limited _)
  answer_call-Does (drop_admin_key id) =
      sealed-Does x d (trim_scope k.scope) g _ (root-Does x d g k limited _)
  answer_call-Does (post_key p body) =
      sealed-Does x d (trim_scope k.scope) g _ (create_key-Does x d g k limited p body)
  answer_call-Does (drop_key p id) =
      sealed-Does x d (trim_scope k.scope) g _ (revoke_key-Does x d g k limited p id)
  answer_call-Does (post_provider p body) =
      sealed-Does x d (trim_scope k.scope) g _ (create_provider-Does x d g k limited p body)
  answer_call-Does (patch_provider p id body) =
      sealed-Does x d (trim_scope k.scope) g _ (update_provider-Does x d g k limited p id body)
  answer_call-Does (drop_provider p id) =
      sealed-Does x d (trim_scope k.scope) g _ (delete_provider-Does x d g k limited p id)
  answer_call-Does (put_alias p name body) =
      sealed-Does x d (trim_scope k.scope) g _ (upsert_alias-Does x d g k limited p name body)
  answer_call-Does (drop_alias p name) =
      sealed-Does x d (trim_scope k.scope) g _ (delete_alias-Does x d g k limited p name)
  answer_call-Does (put_route p body) =
      sealed-Does x d (trim_scope k.scope) g _ (upsert_route-Does x d g k limited conf p body)
  answer_call-Does (drop_route p id) =
      sealed-Does x d (trim_scope k.scope) g _ (delete_route-Does x d g k limited p id)
  answer_call-Does (put_quota p id body) =
      sealed-Does x d (trim_scope k.scope) g _ (set_quota-Does x d g k limited conf p id body)
  answer_call-Does (drop_quota p id) =
      sealed-Does x d (trim_scope k.scope) g _ (delete_quota-Does x d g k limited p id)
  answer_call-Does (post_webhook p body) =
      sealed-Does x d (trim_scope k.scope) g _ (create_webhook-Does x d g k limited p body)
  answer_call-Does (drop_webhook p id) =
      sealed-Does x d (trim_scope k.scope) g _ (delete_webhook-Does x d g k limited p id)
  answer_call-Does (post_refresh body) =
      sealed-Does x d (trim_scope k.scope) g _ (refresh_catalog-Does x d g k limited body)
  answer_call-Does (post_flush p) =
      sealed-Does x d (trim_scope k.scope) g _ (flush_tenant_cache-Does x d g k limited p)
