-- ===== src/Admin.antt =====
-- gateway/internal/server/admin.go, with the policy checks of server/capture.go and server/cache.go: the control plane.
-- A handler is a function of the state, the caller's key (none for a request without one), the path's parameters and
-- the body, which is none where it is not JSON. It gives the state after it and its reply. The store is the one
-- in memory, so the only errors it gives are the two sentinels.
pub mod Policies
pub mod Tenants
pub mod Keys
pub mod Providers
pub mod Rules
pub mod Quotas
pub mod Webhooks
pub mod Reports
pub mod Audit
pub mod Calls
pub mod Effects
pub mod Isolation
pub mod Privileges
pub mod Trail
pub mod Replies
pub mod Foreign
pub mod QuotaChanges
mod Samples
mod Tests
use cogni_gate.Prelude.{
  ℕ, ◌==◌, ltb, Bool, true, false, Option, none, some, List, [], ◌∷◌, ◌++◌, if◌then◌else◌, Text,
  text_eq, codes, trim_space, cut_prefix, ◌⊎◌, inl, inr,
}
use cogni_gate.Memory.{Memory, ApiKey, StoreError, not_found, conflict, Result, ok, err}
use cogni_gate.Memory.ApiKeys.{scope_root}
use cogni_gate.Catalog.Tenants.{Catalog}
use cogni_gate.Catalog.Polling.{Adapters}
use cogni_gate.Quota.Cached.{QuotaCache}
use cogni_gate.Cache.{Cache}
use cogni_gate.Capture as Capture
use cogni_gate.Limits.{EffectiveLimits}
use cogni_gate.Server.ApiErrors.{
  ApiError, invalid_request, with_param, invalid_api_key, insufficient_scope, resource_not_found,
  conflict_error,
}
use cogni_gate.Server.Paging.{Paged, page, page_refused, paginate}

pub record Gateway : Type 0 where
  pub store : Memory
  pub catalog : Catalog
  pub quotas : QuotaCache
  pub cache : Cache
  pub captures : Capture.Store

-- The part of the configuration that the handlers read. A duration is a number of nanoseconds.
pub record AdminConfig : Type 0 where
  pub limits : EffectiveLimits
  pub cache_max_ttl : ℕ
  pub debug_default_ttl : ℕ
  pub debug_max_ttl : ℕ
  pub debug_default_sample_rate : ℕ
  pub max_fallback_depth : ℕ
  pub default_soft_threshold_pct : ℕ

-- What stands outside: the verbs of fmt, the text of a store's error, url.Parse (the scheme and the host), strconv.Atoi,
-- SHA-256 and the adapters of the upstream providers.
pub record Externals : Type 0 where
  pub quote : Text → Text
  pub decimal : ℕ → Text
  pub duration : ℕ → Text
  pub error_text : StoreError → Text
  pub parse_url : Text → Option (Text × Text)
  pub atoi : Text → Option ℕ
  pub hash : Text → Text
  pub adapters : Adapters

-- The clock's reading at a call, and what it draws at random: the ids and the secret of a new key.
pub record Draw : Type 0 where
  pub now : ℕ
  pub id : ℕ → Text
  pub token : Text

pub data Reply (A : Type 0) : Type 0 where
  replied : ℕ → A → Reply A
  failed : ApiError → Reply A

pub record PageQuery : Type 0 where
  pub limit : Text
  pub after : Text

-- `strings.TrimPrefix(scope, "tenant:")`.
unfoldable pub trim_scope : Text → Text
trim_scope scope = elim (cut_prefix (codes "tenant:") scope) [ none ↦ scope | some id ↦ id ]

unfoldable pub is_root : ApiKey → Bool
is_root k = text_eq k.scope scope_root

unfoldable pub require_root : Option ApiKey → Option ApiError
require_root none = some insufficient_scope
require_root (some k) = if is_root k then none else some insufficient_scope

module _ (x : Externals) where
  unfoldable pub tenant_scope : Option ApiKey → Text → ApiError ⊎ Text
  tenant_scope key tenant =
      let id = trim_space tenant in
      if text_eq id []
      then inl (with_param (codes "tenant") (invalid_request (codes "A tenant id is required.")))
      else elim key [
        | none ↦ inl invalid_api_key
        | some k ↦
            if is_root k
            then inr id
            else (if text_eq (trim_scope k.scope) id
                then inr id
                else inl (resource_not_found x.quote x.decimal (codes "tenant") id))
      ]

  unfoldable pub store_err : Text → Text → StoreError → ApiError
  store_err kind id not_found = resource_not_found x.quote x.decimal kind id
  store_err kind id conflict = conflict_error (x.error_text conflict)

  unfoldable pub bad_json : ApiError
  bad_json = invalid_request (codes "Request body is not valid JSON.")

  module _ {A : Type 0} where
    -- The opening of a handler under a tenant, with the rest of it.
    unfoldable pub scoped :
        Option ApiKey → Text → Gateway → (Text → Gateway × Reply A) → Gateway × Reply A
    scoped key tenant g rest = elim (tenant_scope key tenant) [
      | inl e ↦ (g, failed e)
      | inr id ↦ rest id
    ]

    -- A check that ends the handler where it gives an error.
    unfoldable pub checked : Option ApiError → Gateway → (Gateway × Reply A) → Gateway × Reply A
    checked none g rest = rest
    checked (some e) g rest = (g, failed e)

    unfoldable pub parsed :
        {R : Type 0} → Option R → Gateway → (R → Gateway × Reply A) → Gateway × Reply A
    parsed none g rest = (g, failed bad_json)
    parsed (some req) g rest = rest req

    unfoldable pub send_page : (A → Text) → PageQuery → List A → Reply (List A × Bool)
    send_page id_of q items = elim (paginate id_of x.atoi q.limit q.after items) [
      | page xs more ↦ replied 200 (xs, more)
      | page_refused e ↦ failed e
    ]

    -- What a call of the store comes to: its new state, and the reply with a status.
    unfoldable pub store_reply :
        Text → Text → ℕ → Gateway → Memory × Result A → (Gateway → Gateway) → Gateway × Reply A
    store_reply kind id status g (m, err e) after =
        (record g { store = m }, failed (store_err kind id e))
    store_reply kind id status g (m, ok a) after =
        (after (record g { store = m }), replied status a)

unfoldable pub unchanged : Gateway → Gateway
unchanged g = g

-- A bad request that names its parameter, where a test holds.
unfoldable pub bad_when : Bool → Text → Text → Option ApiError
bad_when test msg param = if test then some (with_param param (invalid_request msg)) else none

abbrev pub on_some : {A B : Type 0} → Option A → (A → Option B) → Option B
on_some none f = none
on_some (some a) f = f a

abbrev pub mapped : {A B : Type 0} → (A → B) → Option A → Option B
mapped f none = none
mapped f (some a) = some (f a)

abbrev pub is_set : {A : Type 0} → Option A → Bool
is_set none = false
is_set (some _) = true
