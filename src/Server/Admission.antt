-- ===== src/Server/Admission.antt =====
-- gateway/internal/server/limits.go: limitTenant and rateExempt, the limits between the auth of a request and its route.
-- The part before the route is `enter`, the deferred release is `leave`. A body without a declared length is none.
pub mod Holds
use cogni_gate.Prelude.{
  ℕ, ◌≡◌, ◌≤◌, ◌<◌, ◌-◌, ◌∙◌, ltb, leb, ◌==◌, ◌&&◌, ◌||◌, List, [], ◌∷◌, Bool, true, false, Option,
  none, some, Text, text_dec, text_eq, codes, if◌then◌else◌, trim_end, refl, sym, ap, arith, ◌⊎◌,
  inl, inr, lookup, insert, delete, lookup-insert, lookup-delete, Bool-cases, Option-cases, ite,
  subst,
}
use cogni_gate.Memory.{ApiKey, Tenant}
use cogni_gate.Limits.{EffectiveLimits, limits_for}
use cogni_gate.Limits.Rates.{Rates, Bucket, take}
use cogni_gate.Limits.Concurrency.{
  ConcurrencyLimiter, Permit, Slot, in_flight, limit_of, acquire, give_back, release,
  release_unless_adopted,
}
use cogni_gate.Server.ApiErrors.{
  ApiError, request_too_large, rate_limited, with_retry_after, concurrency_exceeded,
}

pub record Limiters : Type 0 where
  pub rates : List (Text × Bucket)
  pub limiter : ConcurrencyLimiter

pub record Arrival : Type 0 where
  pub key : ApiKey
  pub tenant : Option Tenant
  pub declared : Option ℕ
  pub body_bytes : ℕ
  pub path : Text

unfoldable pub rate_exempt : Text → Bool
rate_exempt path =
    let p = trim_end (λ c. c == 47) path in
    text_eq p (codes "/v1/health") || text_eq p (codes "/v1/meta")

pub data Entrance : Type 0 where
  unlimited : Entrance
  turned_away : ApiError → Entrance
  entered : Slot → Entrance

unfoldable pub rates_of : EffectiveLimits → Rates
rates_of lim = record {
  rps = lim.requests_per_second;
  burst = lim.burst_capacity;
  rpm = lim.requests_per_minute;
}

unfoldable pub declares_over : ℕ → Option ℕ → Bool
declares_over limit none = false
declares_over limit (some n) = ltb limit n

unfoldable pub over_size : EffectiveLimits → Arrival → Bool
over_size lim a =
    declares_over lim.max_request_bytes a.declared || ltb lim.max_request_bytes a.body_bytes

unfoldable pub leave : Slot → Limiters → Limiters × Slot
leave slot s = (
  record s { limiter = (release_unless_adopted s.limiter slot).0 },
  (release_unless_adopted s.limiter slot).1,
)

module _ (quote : Text → Text) (decimal : ℕ → Text) where
  unfoldable pub with_permit :
      EffectiveLimits → Limiters → ConcurrencyLimiter × Option Permit → Limiters × Entrance
  with_permit lim s (l, none) = (
    record s { limiter = l },
    turned_away (concurrency_exceeded quote decimal lim.max_concurrent_per_key),
  )
  with_permit lim s (l, some p) =
      (record s { limiter = l }, entered (record { adopted = false; permit = p }))

  unfoldable pub take_permit : EffectiveLimits → Text → Limiters → Limiters × Entrance
  take_permit lim key_id s = with_permit lim s (acquire s.limiter key_id lim.max_concurrent_per_key)

  unfoldable pub enter_tenant :
      EffectiveLimits → Arrival → Text → ℕ → Limiters → Limiters × Entrance
  enter_tenant lim a tenant_id now s =
      if over_size lim a
      then (s, turned_away (request_too_large quote decimal lim.max_request_bytes))
      else if rate_exempt a.path
      then take_permit lim a.key.id s
      else (let t = take s.rates tenant_id (rates_of lim) now in
          let s' : Limiters = record s { rates = t.0 } in
          if t.2
          then take_permit lim a.key.id s'
          else (s', turned_away (with_retry_after t.1 rate_limited)))

  unfoldable pub enter : EffectiveLimits → Arrival → ℕ → Limiters → Limiters × Entrance
  enter dep a now s = elim a.tenant [
    | none ↦ (s, unlimited)
    | some t ↦ enter_tenant (limits_for dep (some t.limits)) a t.id now s
  ]
