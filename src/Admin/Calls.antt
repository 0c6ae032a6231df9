-- ===== src/Admin/Calls.antt =====
-- The routes of gateway/internal/server/admin.go that change something, as one kind of call, with the audit behind each.
use cogni_gate.Prelude.{ℕ, Option, none, some, [], Text, ◌⊎◌, inl, inr}
use cogni_gate.Memory.{ApiKey}
use cogni_gate.Server.ApiErrors.{ApiError}
use cogni_gate.Admin.{Gateway, AdminConfig, Externals, Draw, Reply, replied, failed}
use cogni_gate.Admin.Tenants.{
  TenantUpdate, create_tenant_call, update_tenant_call, delete_tenant_call,
}
use cogni_gate.Admin.Keys.{KeyRequest, create_key, create_admin_key, revoke_admin_key, revoke_key}
use cogni_gate.Admin.Providers.{
  ProviderRequest, ProviderUpdate, create_provider_call, update_provider_call, delete_provider_call,
}
use cogni_gate.Admin.Rules.{
  AliasRequest, RouteRequest, upsert_alias_call, delete_alias_call, upsert_route_call,
  delete_route_call,
}
use cogni_gate.Admin.Quotas.{QuotaRequest, set_quota_call, delete_quota_call}
use cogni_gate.Admin.Webhooks.{WebhookRequest, create_webhook_call, delete_webhook_call}
use cogni_gate.Admin.Audit.{
  Method, post_method, put_method, patch_method, delete_method, AuditedRequest, audited,
}
use cogni_gate.Admin.Reports.{refresh_catalog, flush_tenant_cache}

-- The path's parameters, then the body. A tenant stands first where there is one.
pub data AdminCall : Type 0 where
  post_tenant : Option Text → AdminCall
  patch_tenant : Text → Option TenantUpdate → AdminCall
  drop_tenant : Text → Text → AdminCall
  post_key : Text → Option KeyRequest → AdminCall
  post_admin_key : Option (Text × Option ℕ) → AdminCall
  drop_admin_key : Text → AdminCall
  drop_key : Text → Text → AdminCall
  post_provider : Text → Option ProviderRequest → AdminCall
  patch_provider : Text → Text → Option ProviderUpdate → AdminCall
  drop_provider : Text → Text → AdminCall
  put_alias : Text → Text → Option AliasRequest → AdminCall
  drop_alias : Text → Text → AdminCall
  put_route : Text → Option RouteRequest → AdminCall
  drop_route : Text → Text → AdminCall
  put_quota : Text → Text → Option QuotaRequest → AdminCall
  drop_quota : Text → Text → AdminCall
  post_webhook : Text → Option WebhookRequest → AdminCall
  drop_webhook : Text → Text → AdminCall
  post_refresh : Option Text → AdminCall
  post_flush : Text → AdminCall

unfoldable pub method_of : AdminCall → Method
method_of (post_tenant _) = post_method
method_of (patch_tenant _ _) = patch_method
method_of (drop_tenant _ _) = delete_method
method_of (post_key _ _) = post_method
method_of (post_admin_key _) = post_method
method_of (drop_admin_key _) = delete_method
method_of (drop_key _ _) = delete_method
method_of (post_provider _ _) = post_method
method_of (patch_provider _ _ _) = patch_method
method_of (drop_provider _ _) = delete_method
method_of (put_alias _ _ _) = put_method
method_of (drop_alias _ _) = delete_method
method_of (put_route _ _) = put_method
method_of (drop_route _ _) = delete_method
method_of (put_quota _ _ _) = put_method
method_of (drop_quota _ _) = delete_method
method_of (post_webhook _ _) = post_method
method_of (drop_webhook _ _) = delete_method
method_of (post_refresh _) = post_method
method_of (post_flush _) = post_method

-- The tenant that the path names, none for the routes that are not under a tenant's scope.
unfoldable pub scoped_to : AdminCall → Option Text
scoped_to (post_tenant _) = none
scoped_to (patch_tenant _ _) = none
scoped_to (drop_tenant _ _) = none
scoped_to (post_key t _) = some t
scoped_to (post_admin_key _) = none
scoped_to (drop_admin_key _) = none
scoped_to (drop_key t _) = some t
scoped_to (post_provider t _) = some t
scoped_to (patch_provider t _ _) = some t
scoped_to (drop_provider t _) = some t
scoped_to (put_alias t _ _) = some t
scoped_to (drop_alias t _) = some t
scoped_to (put_route t _) = some t
scoped_to (drop_route t _) = some t
scoped_to (put_quota t _ _) = some t
scoped_to (drop_quota t _) = some t
scoped_to (post_webhook t _) = some t
scoped_to (drop_webhook t _) = some t
scoped_to (post_refresh _) = none
scoped_to (post_flush t) = some t

-- A reply without its body.
unfoldable pub sealed : {A : Type 0} → Gateway × Reply A → Gateway × (ApiError ⊎ ℕ)
sealed (g, replied status _) = (g, inr status)
sealed (g, failed e) = (g, inl e)

unfoldable pub status_of : ApiError ⊎ ℕ → ℕ
status_of (inl e) = e.status
status_of (inr status) = status

-- The tenant in the path, which a route on the tenant itself has too.
unfoldable pub path_tenant : AdminCall → Text
path_tenant (patch_tenant t _) = t
path_tenant (drop_tenant t _) = t
path_tenant call = elim (scoped_to call) [ none ↦ [] | some t ↦ t ]

-- The request as the audit sees it; the path and the request's id are the transport's.
abbrev pub asked : Text → Text → AdminCall → AuditedRequest
asked path request_id call = record {
  method = method_of call;
  path = path;
  tenant = path_tenant call;
  request_id = request_id;
}

module _ (x : Externals) (conf : AdminConfig) where
  unfoldable pub answer_call : Option ApiKey → AdminCall → Draw → Gateway → Gateway × (ApiError ⊎ ℕ)
  answer_call key (post_tenant body) d g = sealed (create_tenant_call x conf key body d g)
  answer_call key (patch_tenant t body) d g = sealed (update_tenant_call x conf key t body g)
  answer_call key (drop_tenant t confirm) d g = sealed (delete_tenant_call x conf key t confirm g)
  answer_call key (post_key t body) d g = sealed (create_key x key t body d g)
  answer_call key (post_admin_key body) d g = sealed (create_admin_key x key body d g)
  answer_call key (drop_admin_key id) d g = sealed (revoke_admin_key x key id d g)
  answer_call key (drop_key t id) d g = sealed (revoke_key x key t id d g)
  answer_call key (post_provider t body) d g = sealed (create_provider_call x key t body d g)
  answer_call key (patch_provider t id body) d g = sealed (update_provider_call x key t id body g)
  answer_call key (drop_provider t id) d g = sealed (delete_provider_call x key t id g)
  answer_call key (put_alias t name body) d g = sealed (upsert_alias_call x key t name body d g)
  answer_call key (drop_alias t name) d g = sealed (delete_alias_call x key t name g)
  answer_call key (put_route t body) d g = sealed (upsert_route_call x conf key t body d g)
  answer_call key (drop_route t id) d g = sealed (delete_route_call x key t id g)
  answer_call key (put_quota t id body) d g = sealed (set_quota_call x conf key t id body d g)
  answer_call key (drop_quota t id) d g = sealed (delete_quota_call x key t id g)
  answer_call key (post_webhook t body) d g = sealed (create_webhook_call x key t body d g)
  answer_call key (drop_webhook t id) d g = sealed (delete_webhook_call x key t id g)
  answer_call key (post_refresh body) d g = sealed (refresh_catalog x key body d g)
  answer_call key (post_flush t) d g = sealed (flush_tenant_cache x key t g)

  -- A call with the audit that follows it.
  unfoldable pub administer :
      Text → Text → Option ApiKey → AdminCall → Draw → Text → Gateway → Gateway × (ApiError ⊎ ℕ)
  administer path request_id key call d audit_id g =
      let r = answer_call key call d g in
      (audited key (asked path request_id call) (status_of r.1) audit_id d.now r.0, r.1)
