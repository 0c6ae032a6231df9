-- ===== src/Memory/Tables.antt =====
-- The records and the tables of the in-memory store, and what its methods share.
use cogni_gate.Prelude.{
  ℕ, ◌-◌, Bool, true, false, Option, none, some, List, [], ◌∷◌, ltb, ◌==◌, if◌then◌else◌, length,
  drop, Text, text_dec, text_ltb, lookup,
}
use cogni_gate.Store.{Provider, Alias, Route}
use cogni_gate.Limits.{TenantLimits}
use cogni_gate.Quota.{Quota}

-- The sentinels ErrNotFound and ErrConflict.
pub data StoreError : Type 0 where
  not_found : StoreError
  conflict : StoreError

pub data Result {ℓ} (A : Type ℓ) : Type ℓ where
  ok : A → Result A
  err : StoreError → Result A

pub record TenantDebugCapture : Type 0 where
  pub enabled : Bool
  pub ttl_seconds : ℕ
  pub sample_rate : ℕ

pub record TenantCache : Type 0 where
  pub enabled : Bool
  pub ttl_seconds : ℕ

pub record Tenant : Type 0 where
  pub id : Text
  pub name : Text
  pub status : Text
  pub created_at : ℕ
  pub limits : TenantLimits
  pub cache : TenantCache
  pub debug_capture : TenantDebugCapture
  pub system_instruction : Text

pub data Plane : Type 0 where
  plane_data : Plane
  plane_admin : Plane

pub record ApiKey : Type 0 where
  pub id : Text
  pub tenant_id : Text
  pub plane : Plane
  pub name : Text
  pub prefix : Text
  pub hash : Text
  pub scope : Text
  pub created_at : ℕ
  pub expires_at : Option ℕ
  pub revoked_at : Option ℕ

pub record Webhook : Type 0 where
  pub id : Text
  pub tenant_id : Text
  pub url : Text
  pub secret : Text
  pub events : List Text
  pub enabled : Bool
  pub created_at : ℕ

pub record Event : Type 0 where
  pub id : Text
  pub kind : Text
  pub created : ℕ
  pub tenant_id : Text
  pub payload : Text

pub record AuditEntry : Type 0 where
  pub id : Text
  pub at : ℕ
  pub actor : Text
  pub actor_key_id : Text
  pub actor_scope : Text
  pub action : Text
  pub resource : Text
  pub tenant_id : Text
  pub status : ℕ
  pub request_id : Text

pub record UsageRecord : Type 0 where
  pub request_id : Text
  pub client_request_id : Text
  pub tenant_id : Text
  pub key_prefix : Text
  pub provider : Text
  pub model : Text
  pub requested_model : Text
  pub fallback_depth : ℕ
  pub prompt_tokens : ℕ
  pub completion_tokens : ℕ
  pub total_tokens : ℕ
  pub cost_usd : ℕ
  pub charge_usd : ℕ
  pub billing_mode : Text
  pub cached : Bool
  pub streamed : Bool
  pub status_code : ℕ
  pub duration_ms : ℕ
  pub recorded_at : ℕ

pub record Memory : Type 0 where
  pub tenants : List (Text × Tenant)
  pub keys : List (Text × ApiKey)
  pub keys_by_hash : List (Text × Text)
  pub providers : List (Text × List Provider)
  pub aliases : List (Text × List Alias)
  pub routes : List (Text × List Route)
  pub quotas : List (Text × Quota)
  pub webhooks : List (Text × List Webhook)
  pub events : List (Text × List Event)
  pub usage : List (Text × List UsageRecord)
  pub audit : List AuditEntry
  pub dev : Bool

unfoldable pub new_memory : Bool → Memory
new_memory dev = record {
  tenants = [];
  keys = [];
  keys_by_hash = [];
  providers = [];
  aliases = [];
  routes = [];
  quotas = [];
  webhooks = [];
  events = [];
  usage = [];
  audit = [];
  dev = dev;
}

unfoldable pub has_tenant : Memory → Text → Bool
has_tenant m id = elim (lookup text_dec id m.tenants) [ none ↦ false | some _ ↦ true ]

-- A tenant's rows; a missing key of a Go map of slices reads as none.
unfoldable pub rows : {A : Type 0} → List (Text × List A) → Text → List A
rows table id = elim (lookup text_dec id table) [ none ↦ [] | some xs ↦ xs ]

-- The last elements, at most a number: the bound on a history.
unfoldable pub last_of : {A : Type 0} → ℕ → List A → List A
last_of bound xs = if ltb bound (length xs) then drop (length xs - bound) xs else xs

-- The first row that a test takes, without it; none where no row is taken.
unfoldable pub remove_first : {A : Type 0} → (A → Bool) → List A → Option (List A)
remove_first p [] = none
remove_first p (x ∷ xs) =
    let rest = remove_first p xs in
    if p x then some xs else elim rest [ none ↦ none | some ys ↦ some (x ∷ ys) ]

unfoldable pub find_first : {A : Type 0} → (A → Bool) → List A → Option A
find_first p [] = none
find_first p (x ∷ xs) = let rest = find_first p xs in if p x then some x else rest

-- The total order of the listings: by creation, then by id.
unfoldable pub created_before : ℕ → Text → ℕ → Text → Bool
created_before a i b j = if a == b then text_ltb i j else ltb a b
