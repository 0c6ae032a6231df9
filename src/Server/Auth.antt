-- ===== src/Server/Auth.antt =====
-- gateway/internal/server/middleware.go: bearer, bootstrapMatches and auth, which decides who a request comes from. The
-- hash of a credential is an argument, as in the store.
pub mod Credentials
use cogni_gate.Prelude.{
  ℕ, ltb, ◌&&◌, List, [], ◌∷◌, Bool, true, false, Option, none, some, Text, text_eq, codes,
  if◌then◌else◌, length, take, drop, equal_fold, trim_space,
}
use cogni_gate.Memory.{Memory, Plane, plane_data, plane_admin, ApiKey, Tenant, Result, ok, err}
use cogni_gate.Memory.Credentials.{plane_of}
use cogni_gate.Memory.ApiKeys.{resolve_key, scope_root}
use cogni_gate.Server.ApiErrors.{ApiError, invalid_api_key, wrong_plane}

abbrev pub scheme : Text
scheme = codes "bearer "

-- The credential of an Authorization header, empty for none.
unfoldable pub bearer : Text → Text
bearer h =
    if ltb (length scheme) (length h) && equal_fold (take (length scheme) h) scheme
    then trim_space (drop (length scheme) h)
    else trim_space h

abbrev pub min_bootstrap_key_len : ℕ
min_bootstrap_key_len = 16

unfoldable pub bootstrap_matches : Text → Text → Bool
bootstrap_matches want raw =
    if ltb (length want) min_bootstrap_key_len then false else text_eq raw want

abbrev pub plane_text : Plane → Text
plane_text plane_data = codes "data"
plane_text plane_admin = codes "admin"

abbrev pub is_plane : Plane → Plane → Bool
is_plane plane_data plane_data = true
is_plane plane_data plane_admin = false
is_plane plane_admin plane_data = false
is_plane plane_admin plane_admin = true

abbrev pub bootstrap_key : ApiKey
bootstrap_key = record {
  id = codes "bootstrap";
  tenant_id = [];
  plane = plane_admin;
  name = codes "bootstrap";
  prefix = codes "bootstrap";
  hash = [];
  scope = scope_root;
  created_at = 0;
  expires_at = none;
  revoked_at = none;
}

pub data AuthVerdict : Type 0 where
  admitted : ApiKey → Option Tenant → AuthVerdict
  refused : ApiError → AuthVerdict

unfoldable pub is_suspended : Option Tenant → Bool
is_suspended none = false
is_suspended (some t) = text_eq t.status (codes "suspended")

-- What auth does with the answer of ResolveKey.
unfoldable pub judged : Plane → Result (ApiKey × Option Tenant) → AuthVerdict
judged want (err e) = refused invalid_api_key
judged want (ok (key, tenant)) =
    if is_plane key.plane want
    then (if is_suspended tenant then refused invalid_api_key else admitted key tenant)
    else refused (wrong_plane (plane_text want))

module _ (hash : Text → Text) (bootstrap : Text) where
  -- The part of auth behind the bootstrap key.
  unfoldable pub by_store : Plane → Text → Memory → ℕ → AuthVerdict
  by_store want raw m now = elim (plane_of raw) [
    | none ↦ refused invalid_api_key
    | some plane ↦
        if is_plane plane want
        then judged want (resolve_key hash m raw now)
        else refused (wrong_plane (plane_text want))
  ]

  unfoldable pub auth : Plane → Text → Memory → ℕ → AuthVerdict
  auth want header m now =
      let raw = bearer header in
      if text_eq raw []
      then refused invalid_api_key
      else if bootstrap_matches bootstrap raw
      then (if is_plane want plane_admin
          then admitted bootstrap_key none
          else refused (wrong_plane (plane_text want)))
      else by_store want raw m now
