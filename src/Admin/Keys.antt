-- ===== src/Admin/Keys.antt =====
-- The handlers on API keys: those of a tenant, and the root admin keys, which belong to no tenant.
use cogni_gate.Prelude.{
  ℕ, leb, ◌&&◌, not, Bool, false, Option, none, some, List, [], ◌++◌, if◌then◌else◌, Text, text_eq,
  codes, trim_space,
}
use cogni_gate.Memory.{Memory, ApiKey, Plane, plane_data, plane_admin, Result, ok, err}
use cogni_gate.Memory.ApiKeys.{scope_root, is_admin, create_api_key, list_api_keys, revoke_api_key}
use cogni_gate.Server.ApiErrors.{ApiError, invalid_request, with_param, insufficient_scope}
use cogni_gate.Admin.{
  Gateway, Externals, Draw, Reply, failed, PageQuery, is_root, require_root, scoped, checked,
  parsed, send_page, store_reply, unchanged, bad_when,
}

pub record KeyRequest : Type 0 where
  pub name : Text
  pub plane : Text
  pub scope : Text
  pub expires_at : Option ℕ

-- The plane asked for, the data plane where none is; none for a plane that there is not.
unfoldable pub asked_plane : Text → Option Plane
asked_plane raw =
    let plane = trim_space raw in
    if text_eq plane []
    then some plane_data
    else if text_eq plane (codes "data")
    then some plane_data
    else if text_eq plane (codes "admin")
    then some plane_admin
    else none

-- The scope that a key gets without being asked.
unfoldable pub derived_scope : Plane → Text → Text
derived_scope plane_data tenant = []
derived_scope plane_admin tenant = codes "tenant:" ++ tenant

unfoldable pub caller_is_root : Option ApiKey → Bool
caller_is_root none = false
caller_is_root (some k) = is_root k

-- What is wrong with the scope asked for.
unfoldable pub scope_error : Option ApiKey → Plane → Text → Text → Option ApiError
scope_error key plane tenant asked =
    if text_eq asked scope_root
    then (if is_admin plane
        then (if caller_is_root key then none else some insufficient_scope)
        else some (
            with_param (codes "scope")
              (invalid_request (codes "Only an admin-plane key can carry the \"root\" scope."))))
    else bad_when (not (text_eq asked []) && not (text_eq asked (derived_scope plane tenant)))
        (codes
          "scope must be \"root\" or omitted; a tenant key's scope is derived from its tenant.")
        (codes "scope")

unfoldable pub granted_scope : Plane → Text → Text → Text
granted_scope plane tenant asked =
    if text_eq asked scope_root then scope_root else derived_scope plane tenant

-- The time has to be after now.
unfoldable pub expiry_error : Option ℕ → ℕ → Option ApiError
expiry_error none now = none
expiry_error (some t) now =
    bad_when (leb t now) (codes "expires_at must be in the future.") (codes "expires_at")

pub record MintedKey : Type 0 where
  pub key : ApiKey
  pub secret : Text

unfoldable pub minted_key : Memory × Result (ApiKey × Text) → Memory × Result MintedKey
minted_key (m, err e) = (m, err e)
minted_key (m, ok (k, secret)) = (m, ok (record { key = k; secret = secret }))

abbrev pub bad_plane : ApiError
bad_plane =
    with_param (codes "plane") (invalid_request (codes "plane must be \"data\" or \"admin\"."))

module _ (x : Externals) where
  unfoldable pub mint :
      Text → Text → Plane → Text → Text → Option ℕ → Draw → Gateway → Gateway × Reply MintedKey
  mint kind tenant plane name scope expires d g =
      store_reply x kind tenant 201 g
        (minted_key
          (create_api_key x.hash g.store tenant plane name scope expires (d.id 0) d.token d.now))
        unchanged

  unfoldable pub create_key_in :
      Option ApiKey → Text → KeyRequest → Option Plane → Draw → Gateway → Gateway × Reply MintedKey
  create_key_in key tenant r none d g = (g, failed bad_plane)
  create_key_in key tenant r (some plane) d g = checked x (scope_error key plane tenant r.scope) g (
      checked x (expiry_error r.expires_at d.now) g (
        mint (codes "tenant") tenant plane r.name (granted_scope plane tenant r.scope) r.expires_at
          d g))

  unfoldable pub create_key :
      Option ApiKey → Text → Option KeyRequest → Draw → Gateway → Gateway × Reply MintedKey
  create_key key path body d g =
      scoped x key path g
        (λ tenant. parsed x body g (λ r. create_key_in key tenant r (asked_plane r.plane) d g))

  -- The store takes every root admin key, so how its refusal would read does not matter.
  unfoldable pub create_admin_key :
      Option ApiKey → Option (Text × Option ℕ) → Draw → Gateway → Gateway × Reply MintedKey
  create_admin_key key body d g = checked x (require_root key) g (
      parsed x body g (λ (name, expires).
        checked x
          (bad_when (text_eq (trim_space name) []) (codes "A key name is required.") (codes "name"))
          g
          (checked x (expiry_error expires d.now) g
            (mint (codes "key") [] plane_admin (trim_space name) scope_root expires d g))))

  unfoldable pub list_admin_keys :
      Option ApiKey → PageQuery → Gateway → Gateway × Reply (List ApiKey × Bool)
  list_admin_keys key q g =
      checked x (require_root key) g
        (g, send_page x (λ (k : ApiKey). k.id) q (list_api_keys g.store []))

  unfoldable pub revoke_admin_key :
      Option ApiKey → Text → Draw → Gateway → Gateway × Reply (Unit {0})
  revoke_admin_key key id d g =
      checked x (require_root key) g
        (store_reply x (codes "key") id 204 g (revoke_api_key g.store [] id d.now) unchanged)

  unfoldable pub list_keys :
      Option ApiKey → Text → PageQuery → Gateway → Gateway × Reply (List ApiKey × Bool)
  list_keys key path q g =
      scoped x key path g
        (λ tenant. (g, send_page x (λ (k : ApiKey). k.id) q (list_api_keys g.store tenant)))

  unfoldable pub revoke_key :
      Option ApiKey → Text → Text → Draw → Gateway → Gateway × Reply (Unit {0})
  revoke_key key path id d g = scoped x key path g (λ tenant.
      store_reply x (codes "key") id 204 g (revoke_api_key g.store tenant id d.now) unchanged)
