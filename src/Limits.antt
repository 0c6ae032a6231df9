-- ===== src/Limits.antt =====
-- gateway/internal/server/limits.go and the concurrency limiter of server/middleware.go: the limits
-- in force for a request, the admin check of a tenant's overrides, and the two limiters. A ceiling
-- of the deployment below zero acts as zero everywhere and is not represented.
pub mod Narrowing
pub mod Concurrency
pub mod InFlight
pub mod Rates
pub mod RateBound
pub mod Retry
mod Tests
use cogni_gate.Prelude.{
  ℕ, ◌*◌, ◌/◌, Bool, true, false, ◌||◌, Option, none, some, List, [], ◌∷◌, leb, ltb, if◌then◌else◌,
  ℤ, pos, negsuc, int64, scale,
}

pub record TenantLimits : Type 0 where
  pub max_request_bytes : ℤ
  pub request_timeout_seconds : ℤ
  pub stream_idle_timeout_seconds : ℤ
  pub max_concurrent_per_key : ℤ
  pub requests_per_second : ℤ
  pub burst_capacity : ℤ
  pub requests_per_minute : ℤ

-- Durations are in nanoseconds.
pub record EffectiveLimits : Type 0 where
  pub max_request_bytes : ℕ
  pub request_timeout : ℕ
  pub stream_idle_timeout : ℕ
  pub max_concurrent_per_key : ℕ
  pub requests_per_second : ℕ
  pub burst_capacity : ℕ
  pub requests_per_minute : ℕ

abbrev pub second : ℕ
second = 1000000000

unfoldable pub lower_int : ℕ → ℤ → ℕ
lower_int ceiling (negsuc _) = ceiling
lower_int ceiling (pos override) =
    if leb override 0 || ltb ceiling override then ceiling else override

unfoldable pub lower_duration : ℕ → ℤ → ℕ
lower_duration ceiling override_seconds = lower_int ceiling (int64 (scale override_seconds second))

unfoldable pub limits_for : EffectiveLimits → Option TenantLimits → EffectiveLimits
limits_for dep none = dep
limits_for dep (some o) = record {
  max_request_bytes = lower_int dep.max_request_bytes o.max_request_bytes;
  request_timeout = lower_duration dep.request_timeout o.request_timeout_seconds;
  stream_idle_timeout = lower_duration dep.stream_idle_timeout o.stream_idle_timeout_seconds;
  max_concurrent_per_key = lower_int dep.max_concurrent_per_key o.max_concurrent_per_key;
  requests_per_second = lower_int dep.requests_per_second o.requests_per_second;
  burst_capacity = lower_int dep.burst_capacity o.burst_capacity;
  requests_per_minute = lower_int dep.requests_per_minute o.requests_per_minute;
}

-- The parameter that an error names.
pub data Param : Type 0 where
  max_request_bytes_param : Param
  request_timeout_seconds_param : Param
  stream_idle_timeout_seconds_param : Param
  max_concurrent_per_key_param : Param
  requests_per_second_param : Param
  burst_capacity_param : Param
  requests_per_minute_param : Param

pub data LimitError : Type 0 where
  negative : Param → LimitError
  above : Param → ℕ → ℕ → LimitError

-- The switch of the loop of validateTenantLimits.
unfoldable pub check_limit : Param → ℤ → ℕ → Option LimitError
check_limit p (negsuc _) ceiling = some (negative p)
check_limit p (pos v) ceiling = if ltb ceiling v then some (above p v ceiling) else none

unfoldable pub first_error : List (Param × ℤ × ℕ) → Option LimitError
first_error [] = none
first_error ((p, v, ceiling) ∷ fs) = elim (check_limit p v ceiling) [
  | some e ↦ some e
  | none ↦ first_error fs
]

-- A timeout's whole seconds.
unfoldable pub validate_tenant_limits : EffectiveLimits → TenantLimits → Option LimitError
validate_tenant_limits dep l = first_error (
    (max_request_bytes_param, l.max_request_bytes, dep.max_request_bytes)
    ∷ (request_timeout_seconds_param, l.request_timeout_seconds, dep.request_timeout / second)
    ∷ (
      stream_idle_timeout_seconds_param,
      l.stream_idle_timeout_seconds,
      dep.stream_idle_timeout / second,
    )
    ∷ (max_concurrent_per_key_param, l.max_concurrent_per_key, dep.max_concurrent_per_key)
    ∷ (requests_per_second_param, l.requests_per_second, dep.requests_per_second)
    ∷ (burst_capacity_param, l.burst_capacity, dep.burst_capacity)
    ∷ (requests_per_minute_param, l.requests_per_minute, dep.requests_per_minute)
    ∷ [])
