-- ===== src/Memory/Tenants.antt =====
-- The methods of the store on tenants.
use cogni_gate.Prelude.{
  ℕ, Bool, true, false, ◌&&◌, not, Option, none, some, List, [], ◌∷◌, if◌then◌else◌, Text, text_dec,
  text_eq, codes, equal_fold, trim_space, lookup, insert, delete, sort_by, pos,
}
use cogni_gate.Limits.{TenantLimits}
use cogni_gate.Memory.Tables.{
  Memory, Tenant, TenantCache, TenantDebugCapture, ApiKey, Result, ok, err, not_found, conflict,
  created_before,
}

abbrev pub no_limits : TenantLimits
no_limits = record {
  max_request_bytes = pos 0;
  request_timeout_seconds = pos 0;
  stream_idle_timeout_seconds = pos 0;
  max_concurrent_per_key = pos 0;
  requests_per_second = pos 0;
  burst_capacity = pos 0;
  requests_per_minute = pos 0;
}

unfoldable pub new_tenant : Text → Text → ℕ → Tenant
new_tenant id name now = record {
  id = id;
  name = name;
  status = codes "active";
  created_at = now;
  limits = no_limits;
  cache = record { enabled = false; ttl_seconds = 0 };
  debug_capture = record { enabled = false; ttl_seconds = 0; sample_rate = 0 };
  system_instruction = [];
}

-- Whether a tenant other than the one with the id has the name; no tenant has the empty id.
unfoldable pub name_taken : Text → Text → List (Text × Tenant) → Bool
name_taken id name [] = false
name_taken id name ((i, t) ∷ ts) =
    let rest = name_taken id name ts in
    if not (text_eq i id) && equal_fold t.name name then true else rest

unfoldable pub create_tenant : Memory → Text → Text → ℕ → Memory × Result Tenant
create_tenant m name id now =
    let name' = trim_space name in
    let t = new_tenant id name' now in
    if text_eq name' []
    then (m, err conflict)
    else (if name_taken [] name' m.tenants
        then (m, err conflict)
        else (record m { tenants = insert text_dec id t m.tenants }, ok t))

unfoldable pub get_tenant : Memory → Text → Result Tenant
get_tenant m id = elim (lookup text_dec id m.tenants) [ none ↦ err not_found | some t ↦ ok t ]

unfoldable pub tenants_of : List (Text × Tenant) → List Tenant
tenants_of [] = []
tenants_of ((i, t) ∷ ts) = t ∷ tenants_of ts

unfoldable pub tenant_before : Tenant → Tenant → Bool
tenant_before s t = created_before s.created_at s.id t.created_at t.id

unfoldable pub list_tenants : Memory → List Tenant
list_tenants m = sort_by tenant_before (tenants_of m.tenants)

-- A partial update: an absent field is none.
pub record TenantPatch : Type 0 where
  pub name : Option Text
  pub status : Option Text
  pub limits : Option TenantLimits
  pub cache : Option TenantCache
  pub debug_capture : Option TenantDebugCapture
  pub system_instruction : Option Text

unfoldable pub or_keep : {A : Type 0} → A → Option A → A
or_keep old none = old
or_keep old (some new) = new

unfoldable pub patched : Tenant → TenantPatch → Option Text → Tenant
patched t p name = record t {
  name = or_keep t.name name;
  status = or_keep t.status p.status;
  limits = or_keep t.limits p.limits;
  cache = or_keep t.cache p.cache;
  debug_capture = or_keep t.debug_capture p.debug_capture;
  system_instruction = or_keep t.system_instruction p.system_instruction;
}

-- The name to set, where the patch has one: trimmed, not empty and not another tenant's.
unfoldable pub patch_name : Memory → Text → Option Text → Result (Option Text)
patch_name m id none = ok none
patch_name m id (some name) =
    let name' = trim_space name in
    if text_eq name' []
    then err conflict
    else (if name_taken id name' m.tenants then err conflict else ok (some name'))

unfoldable pub update_tenant : Memory → Text → TenantPatch → Memory × Result Tenant
update_tenant m id p = elim (lookup text_dec id m.tenants) [
  | none ↦ (m, err not_found)
  | some t ↦ elim (patch_name m id p.name) [
    | err e ↦ (m, err e)
    | ok name ↦ (
      record m { tenants = insert text_dec id (patched t p name) m.tenants },
      ok (patched t p name),
    )
  ]
]

-- The loop of DeleteTenant over the keys: the hashes taken out, and the keys that stay.
unfoldable pub drop_hashes : Text → List (Text × ApiKey) → List (Text × Text) → List (Text × Text)
drop_hashes id [] hashes = hashes
drop_hashes id ((i, k) ∷ ks) hashes =
    drop_hashes id ks (if text_eq k.tenant_id id then delete text_dec k.hash hashes else hashes)

unfoldable pub drop_keys : Text → List (Text × ApiKey) → List (Text × ApiKey)
drop_keys id [] = []
drop_keys id ((i, k) ∷ ks) =
    let rest = drop_keys id ks in if text_eq k.tenant_id id then rest else (i, k) ∷ rest

-- The quotas and the events are deleted as the source does it: the map of the quotas is keyed by
-- the tenant and the key together, and here the tenant alone is passed; the events are not touched.
unfoldable pub without_tenant : Memory → Text → Memory
without_tenant m id = record m {
  tenants = delete text_dec id m.tenants;
  keys = drop_keys id m.keys;
  keys_by_hash = drop_hashes id m.keys m.keys_by_hash;
  providers = delete text_dec id m.providers;
  aliases = delete text_dec id m.aliases;
  routes = delete text_dec id m.routes;
  quotas = delete text_dec id m.quotas;
  webhooks = delete text_dec id m.webhooks;
  usage = delete text_dec id m.usage;
}

unfoldable pub delete_tenant : Memory → Text → Memory × Result (Unit {0})
delete_tenant m id = elim (lookup text_dec id m.tenants) [
  | none ↦ (m, err not_found)
  | some _ ↦ (without_tenant m id, ok tt)
]
