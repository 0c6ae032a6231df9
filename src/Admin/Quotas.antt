-- ===== src/Admin/Quotas.antt =====
-- The handlers on quotas: a tenant's own, or the one of a key, which the path's second parameter names. A cap and a
-- threshold come from the body as integers, the cap in the unit of the model of the quotas.
use cogni_gate.Prelude.{
  ℕ, ◌==◌, ltb, ◌||◌, Bool, false, Option, none, some, List, [], ◌∷◌, ◌++◌, if◌then◌else◌, Text,
  text_eq, codes, trim_space, ℤ, pos, negsuc, ◌⊎◌, inl, inr,
}
use cogni_gate.Quota.{Quota, QuotaWindow, QuotaLimit}
use cogni_gate.Quota.Cached.{is_empty_quota, forget_quotas}
use cogni_gate.Memory.{ApiKey}
use cogni_gate.Memory.ApiKeys.{list_api_keys}
use cogni_gate.Memory.Quotas.{set_quota, get_quota, delete_quota}
use cogni_gate.Server.ApiErrors.{ApiError, invalid_request, with_param, resource_not_found}
use cogni_gate.Admin.{
  Gateway, AdminConfig, Externals, Draw, Reply, failed, scoped, parsed, store_reply, unchanged,
}

pub record LimitRequest : Type 0 where
  pub cap : ℤ
  pub soft_threshold_pct : ℤ

pub record WindowRequest : Type 0 where
  pub tokens : Option LimitRequest
  pub cost : Option LimitRequest
  pub requests : Option LimitRequest

pub record QuotaRequest : Type 0 where
  pub day : WindowRequest
  pub month : WindowRequest

abbrev pub negative_cap : Text → ApiError
negative_cap param =
    with_param (param ++ codes ".cap") (invalid_request (codes "A quota cap must not be negative."))

abbrev pub bad_threshold : Text → ApiError
bad_threshold param =
    with_param (param ++ codes ".soft_threshold_pct")
      (invalid_request (codes "soft_threshold_pct must be between 1 and 100."))

-- A limit whose threshold lies within 1 and 100.
unfoldable pub with_threshold : Text → ℕ → ℕ → ApiError ⊎ Option QuotaLimit
with_threshold param limit pct =
    if ltb pct 1 || ltb 100 pct
    then inl (bad_threshold param)
    else inr (some (record { cap = limit; soft_threshold_pct = pct }))

unfoldable pub normalise_quota_limit : ℕ → Text → Option LimitRequest → ApiError ⊎ Option QuotaLimit
normalise_quota_limit default param none = inr none
normalise_quota_limit default param (some r) = elim r.cap [
  | negsuc _ ↦ inl (negative_cap param)
  | pos limit ↦ elim r.soft_threshold_pct [
    | negsuc _ ↦ inl (bad_threshold param)
    | pos pct ↦ with_threshold param limit (if pct == 0 then default else pct)
  ]
]

-- The rest of a loop behind one slot.
unfoldable pub and_then : {A B : Type 0} → ApiError ⊎ A → (A → ApiError ⊎ B) → ApiError ⊎ B
and_then (inl e) f = inl e
and_then (inr a) f = f a

unfoldable pub normalised_window : ℕ → Text → WindowRequest → ApiError ⊎ QuotaWindow
normalised_window default name r =
    and_then (normalise_quota_limit default (name ++ codes ".tokens") r.tokens) (λ tokens.
      and_then (normalise_quota_limit default (name ++ codes ".cost") r.cost) (λ cost.
        and_then (normalise_quota_limit default (name ++ codes ".requests") r.requests)
          (λ requests. inr (record { tokens = tokens; cost = cost; requests = requests }))))

-- The quota of two windows, where it has a cap.
unfoldable pub quota_from : Text → Text → QuotaWindow → QuotaWindow → ApiError ⊎ Quota
quota_from tenant key day month =
    let q : Quota = record {
      tenant_id = tenant;
      key_id = key;
      day = day;
      month = month;
      updated_at = 0;
    } in
    if is_empty_quota q
    then inl (
        invalid_request (
          codes
            "A quota must configure at least one cap: day or month, in tokens, cost or requests."))
    else inr q

-- The quota of a request: every slot in order, then that there is a cap.
unfoldable pub quota_of : ℕ → Text → Text → QuotaRequest → ApiError ⊎ Quota
quota_of default tenant key r = and_then (normalised_window default (codes "day") r.day) (λ day.
    and_then (normalised_window default (codes "month") r.month)
      (λ month. quota_from tenant key day month))

unfoldable pub has_key_id : Text → List ApiKey → Bool
has_key_id id [] = false
has_key_id id (k ∷ keys) = text_eq k.id id || has_key_id id keys

-- What follows a change of a tenant's quotas.
unfoldable pub with_quotas_forgotten : Text → Gateway → Gateway
with_quotas_forgotten tenant g = record g { quotas = forget_quotas tenant g.quotas }

module _ (x : Externals) where
  -- The rest of a handler at the quota that the path names.
  unfoldable pub at_target :
      {A : Type 0}
      → Option ApiKey
      → Text
      → Text
      → Gateway
      → (Text → Text → Gateway × Reply A)
      → Gateway × Reply A
  at_target key path raw g rest = scoped x key path g (λ tenant.
      let id = trim_space raw in
      if text_eq id []
      then rest tenant []
      else (if has_key_id id (list_api_keys g.store tenant)
          then rest tenant id
          else (g, failed (resource_not_found x.quote x.decimal (codes "key") id))))

  unfoldable pub set_quota_in : Text → Draw → Gateway → ApiError ⊎ Quota → Gateway × Reply Quota
  set_quota_in tenant d g (inl e) = (g, failed e)
  set_quota_in tenant d g (inr q) =
      store_reply x (codes "tenant") tenant 200 g (set_quota g.store q d.now)
        (with_quotas_forgotten tenant)

  unfoldable pub set_quota_call :
      AdminConfig
      → Option ApiKey
      → Text
      → Text
      → Option QuotaRequest
      → Draw
      → Gateway
      → Gateway × Reply Quota
  set_quota_call conf key path raw body d g = at_target key path raw g (λ tenant id.
      parsed x body g
        (λ r. set_quota_in tenant d g (quota_of conf.default_soft_threshold_pct tenant id r)))

  unfoldable pub get_quota_call : Option ApiKey → Text → Text → Gateway → Gateway × Reply Quota
  get_quota_call key path raw g = at_target key path raw g (λ tenant id.
      store_reply x (codes "quota") tenant 200 g (g.store, get_quota g.store tenant id) unchanged)

  unfoldable pub delete_quota_call :
      Option ApiKey → Text → Text → Gateway → Gateway × Reply (Unit {0})
  delete_quota_call key path raw g = at_target key path raw g (λ tenant id.
      store_reply x (codes "quota") tenant 204 g (delete_quota g.store tenant id)
        (with_quotas_forgotten tenant))
