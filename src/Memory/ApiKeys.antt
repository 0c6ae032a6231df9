-- ===== src/Memory/ApiKeys.antt =====
-- The methods of the store on API keys, and ResolveKey.
pub mod KeyTable
pub mod Calls
pub mod Revocation
use cogni_gate.Prelude.{
  ℕ, Bool, true, false, ◌&&◌, ◌||◌, not, Option, none, some, List, [], ◌∷◌, if◌then◌else◌, ltb,
  Text, text_dec, text_eq, codes, lookup, insert, sort_by,
}
use cogni_gate.Memory.Tables.{
  Memory, Tenant, ApiKey, Plane, plane_data, plane_admin, Result, ok, err, not_found, conflict,
  has_tenant, created_before,
}
use cogni_gate.Memory.Credentials.{generate_api_key, key_prefix}

abbrev pub scope_root : Text
scope_root = codes "root"

unfoldable pub not_expired : Option ℕ → ℕ → Bool
not_expired none now = true
not_expired (some t) now = not (ltb t now)

unfoldable pub not_revoked : Option ℕ → Bool
not_revoked none = true
not_revoked (some _) = false

unfoldable pub is_active : ApiKey → ℕ → Bool
is_active k now = not_revoked k.revoked_at && not_expired k.expires_at now

unfoldable pub is_admin : Plane → Bool
is_admin plane_data = false
is_admin plane_admin = true

-- The check of the tenant: a root admin key is the one credential with no tenant behind it.
unfoldable pub may_mint : Memory → Text → Plane → Text → Result (Unit {0})
may_mint m tenant plane scope =
    if not (text_eq tenant [])
    then (if has_tenant m tenant then ok tt else err not_found)
    else (if is_admin plane && text_eq scope scope_root then ok tt else err conflict)

unfoldable pub with_key : Memory → ApiKey → Memory
with_key m k = record m {
  keys = insert text_dec k.id k m.keys;
  keys_by_hash = insert text_dec k.hash k.id m.keys_by_hash;
}

module _ (hash : Text → Text) where
  unfoldable pub minted : Memory → Text → Plane → Text → Text → Option ℕ → Text → Text → ℕ → ApiKey
  minted m tenant plane name scope expires id token now = record {
    id = id;
    tenant_id = tenant;
    plane = plane;
    name = name;
    prefix = key_prefix (generate_api_key plane m.dev token);
    hash = hash (generate_api_key plane m.dev token);
    scope = scope;
    created_at = now;
    expires_at = expires;
    revoked_at = none;
  }

  unfoldable pub create_api_key :
      Memory
      → Text
      → Plane
      → Text
      → Text
      → Option ℕ
      → Text
      → Text
      → ℕ
      → Memory × Result (ApiKey × Text)
  create_api_key m tenant plane name scope expires id token now =
      let k = minted m tenant plane name scope expires id token now in
      elim (may_mint m tenant plane scope) [
        | err e ↦ (m, err e)
        | ok _ ↦ (with_key m k, ok (k, generate_api_key plane m.dev token))
      ]

  -- The key object that a hash points at.
  unfoldable pub key_of_hash : Memory → Text → Option ApiKey
  key_of_hash m h = elim (lookup text_dec h m.keys_by_hash) [
    | none ↦ none
    | some id ↦ lookup text_dec id m.keys
  ]

  unfoldable pub resolved_tenant : Memory → ApiKey → Result (ApiKey × Option Tenant)
  resolved_tenant m k =
      if text_eq k.tenant_id []
      then ok (k, none)
      else elim (lookup text_dec k.tenant_id m.tenants) [
        | none ↦ err not_found
        | some t ↦ ok (k, some t)
      ]

  unfoldable pub resolve_key : Memory → Text → ℕ → Result (ApiKey × Option Tenant)
  resolve_key m plaintext now = elim (key_of_hash m (hash plaintext)) [
    | none ↦ err not_found
    | some k ↦ if is_active k now then resolved_tenant m k else err not_found
  ]

unfoldable pub keys_of : Text → List (Text × ApiKey) → List ApiKey
keys_of tenant [] = []
keys_of tenant ((i, k) ∷ ks) =
    let rest = keys_of tenant ks in if text_eq k.tenant_id tenant then k ∷ rest else rest

unfoldable pub key_before : ApiKey → ApiKey → Bool
key_before j k = created_before j.created_at j.id k.created_at k.id

unfoldable pub list_api_keys : Memory → Text → List ApiKey
list_api_keys m tenant = sort_by key_before (keys_of tenant m.keys)

-- A key that is revoked already keeps its time.
unfoldable pub revoked : ApiKey → ℕ → ApiKey
revoked k now = if not_revoked k.revoked_at then record k { revoked_at = some now } else k

unfoldable pub revoke_api_key : Memory → Text → Text → ℕ → Memory × Result (Unit {0})
revoke_api_key m tenant id now = elim (lookup text_dec id m.keys) [
  | none ↦ (m, err not_found)
  | some k ↦
      if text_eq k.tenant_id tenant
      then (record m { keys = insert text_dec id (revoked k now) m.keys }, ok tt)
      else (m, err not_found)
]
