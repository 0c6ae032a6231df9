-- ===== src/Admin/Tenants.antt =====
-- The handlers on tenants. The event of a change of the capture's switch, which goes to the dispatcher of events, is a
-- part of the reply here.
use cogni_gate.Prelude.{
  ℕ, ◌+◌, ◌||◌, not, Bool, true, false, Option, none, some, List, [], ◌∷◌, if◌then◌else◌, Text,
  text_eq, codes, trim_space,
}
use cogni_gate.Store.{Alias}
use cogni_gate.Memory.{Memory, ApiKey, Tenant, ok, err}
use cogni_gate.Memory.Tenants.{
  TenantPatch, create_tenant, list_tenants, get_tenant, update_tenant, delete_tenant,
}
use cogni_gate.Memory.Rules.{upsert_alias}
use cogni_gate.Limits.{TenantLimits, validate_tenant_limits}
use cogni_gate.Catalog.Tenants.{invalidate}
use cogni_gate.Quota.Cached.{forget_quotas}
use cogni_gate.Cache.{flush}
use cogni_gate.Capture as Capture
use cogni_gate.Server.ApiErrors.{ApiError, invalid_request}
use cogni_gate.Admin.{
  Gateway, AdminConfig, Externals, Draw, Reply, replied, failed, PageQuery, require_root, scoped,
  checked, parsed, send_page, store_reply, unchanged, bad_when, on_some, mapped, is_set,
}
use cogni_gate.Admin.Policies.{
  CacheRequest, DebugCaptureRequest, cache_policy, capture_policy, limit_error,
  validate_tenant_cache, validate_tenant_debug_capture, capture_ttl, capture_sample_rate,
  capture_warnings,
}

-- The names that every tenant starts with.
abbrev pub seed : Text → Text → Text → Alias
seed name tier capability = record {
  id = [];
  tenant_id = [];
  name = name;
  pin = [];
  capabilities = capability ∷ [];
  min_context_window = 0;
  provider_preference = [];
  cost_tier = tier;
  created_at = 0;
}

abbrev pub seeded_aliases : List Alias
seeded_aliases =
    seed (codes "fast") (codes "cheapest") (codes "chat")
    ∷ seed (codes "balanced") (codes "balanced") (codes "chat")
    ∷ seed (codes "best") (codes "best") (codes "chat")
    ∷ seed (codes "transcribe") (codes "") (codes "transcription")
    ∷ []

-- An alias that the store refuses is passed over.
unfoldable pub seed_aliases : Draw → ℕ → Text → List Alias → Memory → Memory
seed_aliases d n tenant [] m = m
seed_aliases d n tenant (a ∷ rest) m =
    seed_aliases d (n + 1) tenant rest
      (upsert_alias m (record a { tenant_id = tenant }) (d.id n) d.now).0

pub record TenantUpdate : Type 0 where
  pub name : Option Text
  pub status : Option Text
  pub limits : Option TenantLimits
  pub cache : Option CacheRequest
  pub debug_capture : Option DebugCaptureRequest
  pub system_instruction : Option Text

-- The event of a change of the capture's switch, with the policy where it is on.
pub record CaptureEvent : Type 0 where
  pub event : Text
  pub tenant : Text
  pub policy : Option (ℕ × ℕ)

pub record TenantView : Type 0 where
  pub tenant : Tenant
  pub warnings : List Text
  pub announced : Option CaptureEvent

-- Every test of the update but the last two is of the body alone.
unfoldable pub is_blank : TenantUpdate → Bool
is_blank r = not (
    is_set r.name
    || is_set r.status
    || is_set r.limits
    || is_set r.cache
    || is_set r.debug_capture
    || is_set r.system_instruction)

unfoldable pub bad_status : Text → Option ApiError
bad_status s =
    bad_when (not (text_eq s (codes "active") || text_eq s (codes "suspended")))
      (codes "status must be \"active\" or \"suspended\".") (codes "status")

unfoldable pub patch_of : TenantUpdate → TenantPatch
patch_of r = record {
  name = r.name;
  status = r.status;
  limits = r.limits;
  cache = mapped cache_policy r.cache;
  debug_capture = mapped capture_policy r.debug_capture;
  system_instruction = r.system_instruction;
}

abbrev pub same_switch : Bool → Bool → Bool
same_switch true b = b
same_switch false b = not b

-- Whether the tenant captured before the write.
unfoldable pub captured_before : Memory → Text → Bool
captured_before m id = elim (get_tenant m id) [ err _ ↦ false | ok t ↦ t.debug_capture.enabled ]

-- What goes with a tenant: its catalog, its quota states, its answers and its captures.
unfoldable pub purged : Text → Gateway → Gateway
purged id g = record g {
  catalog = invalidate id g.catalog;
  quotas = forget_quotas id g.quotas;
  cache = (flush g.cache id).0;
  captures = (Capture.flush g.captures id).0;
}

module _ (x : Externals) (conf : AdminConfig) where
  unfoldable pub create_tenant_call :
      Option ApiKey → Option Text → Draw → Gateway → Gateway × Reply Tenant
  create_tenant_call key body d g = checked x (require_root key) g (
      parsed x body g (λ name.
        checked x
          (bad_when (text_eq (trim_space name) []) (codes "A tenant name is required.")
            (codes "name"))
          g
          (store_reply x (codes "tenant") name 201 g (create_tenant g.store name (d.id 0) d.now)
            (λ h. record h { store = seed_aliases d 1 (d.id 0) seeded_aliases h.store }))))

  unfoldable pub list_tenants_call :
      Option ApiKey → PageQuery → Gateway → Gateway × Reply (List Tenant × Bool)
  list_tenants_call key q g =
      checked x (require_root key) g
        (g, send_page x (λ (t : Tenant). t.id) q (list_tenants g.store))

  unfoldable pub get_tenant_call : Option ApiKey → Text → Gateway → Gateway × Reply Tenant
  get_tenant_call key tenant g =
      scoped x key tenant g
        (λ id. store_reply x (codes "tenant") id 200 g (g.store, get_tenant g.store id) unchanged)

  unfoldable pub capture_event : Bool → TenantUpdate → Tenant → Option CaptureEvent
  capture_event was r t = on_some r.debug_capture (λ _.
      if same_switch was t.debug_capture.enabled
      then none
      else some (record {
        event =
            if t.debug_capture.enabled
            then codes "debug_capture.enabled"
            else codes "debug_capture.disabled";
        tenant = t.id;
        policy =
            if t.debug_capture.enabled
            then some
                (capture_ttl x conf t.debug_capture, capture_sample_rate x conf t.debug_capture)
            else none;
      }))

  unfoldable pub viewed : Bool → TenantUpdate → Gateway × Reply Tenant → Gateway × Reply TenantView
  viewed was r (g, failed e) = (g, failed e)
  viewed was r (g, replied status t) = (
    g,
    replied status (record {
      tenant = t;
      warnings = capture_warnings x conf t.debug_capture;
      announced = capture_event was r t;
    }),
  )

  -- The checks of an update's body, in their order.
  unfoldable pub update_error : TenantUpdate → Option ApiError
  update_error r =
      if is_blank r
      then some (
          invalid_request (
            codes
              "A tenant update must change name, status, limits, cache, debug_capture or system_instruction."))
      else elim (on_some r.status bad_status) [
        | some e ↦ some e
        | none ↦ elim (on_some r.limits (validate_tenant_limits conf.limits)) [
          | some e ↦ some (limit_error x conf e)
          | none ↦ elim (on_some r.cache (validate_tenant_cache x conf)) [
            | some e ↦ some e
            | none ↦ on_some r.debug_capture (validate_tenant_debug_capture x conf)
          ]
        ]
      ]

  unfoldable pub update_tenant_call :
      Option ApiKey → Text → Option TenantUpdate → Gateway → Gateway × Reply TenantView
  update_tenant_call key id body g = checked x (require_root key) g (
      parsed x body g (λ r. checked x (update_error r) g (
        viewed (captured_before g.store id) r (
          store_reply x (codes "tenant") id 200 g (update_tenant g.store id (patch_of r))
            unchanged))))

  unfoldable pub delete_tenant_call :
      Option ApiKey → Text → Text → Gateway → Gateway × Reply (Unit {0})
  delete_tenant_call key id confirm g = checked x (require_root key) g (
      checked x
        (bad_when (not (text_eq confirm id))
          (codes "deleting a tenant requires ?confirm=<id> matching the tenant in the path.")
          (codes "confirm"))
        g (store_reply x (codes "tenant") id 204 g (delete_tenant g.store id) (purged id)))
