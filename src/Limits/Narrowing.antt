-- ===== src/Limits/Narrowing.antt =====
-- A tenant's overrides only narrow the deployment's limits, and those that validation lets in are
-- the limits in force.
use cogni_gate.Prelude.{
  ℕ, zero, suc, ◌*◌, ◌/◌, ◌%◌, ◌≤◌, ◌<◌, ◌≡◌, refl, Option, none, some, List, ◌∷◌, arith, ℤ, pos,
  negsuc, int64, scale, two_to_63, two_to_64,
}
use cogni_gate.Limits.{
  TenantLimits, EffectiveLimits, second, lower_int, lower_duration, limits_for, Param, check_limit,
  first_error, validate_tenant_limits,
}

abbrev pub Narrows : EffectiveLimits → EffectiveLimits → Type 0
Narrows eff dep =
    (eff.max_request_bytes ≤ dep.max_request_bytes)
    × (eff.request_timeout ≤ dep.request_timeout)
    × (eff.stream_idle_timeout ≤ dep.stream_idle_timeout)
    × (eff.max_concurrent_per_key ≤ dep.max_concurrent_per_key)
    × (eff.requests_per_second ≤ dep.requests_per_second)
    × (eff.burst_capacity ≤ dep.burst_capacity)
    × (eff.requests_per_minute ≤ dep.requests_per_minute)

lower_int_le : (ceiling : ℕ) (v : ℤ) → lower_int ceiling v ≤ ceiling
unfolding lower_int
lower_int_le ceiling (pos v) = ground arith
lower_int_le ceiling (negsuc v) = ground arith

lower_duration_le : (ceiling : ℕ) (v : ℤ) → lower_duration ceiling v ≤ ceiling
unfolding lower_duration
lower_duration_le ceiling v = lower_int_le ceiling (int64 (scale v second))

-- Whatever overrides a tenant has, a product that wraps around included, no limit in force for it is above the
-- deployment's.
pub limits_for-Narrows :
    (dep : EffectiveLimits) (o : Option TenantLimits) → Narrows (limits_for dep o) dep
unfolding limits_for
limits_for-Narrows dep none = ground arith
limits_for-Narrows dep (some o) = (
  lower_int_le dep.max_request_bytes o.max_request_bytes,
  lower_duration_le dep.request_timeout o.request_timeout_seconds,
  lower_duration_le dep.stream_idle_timeout o.stream_idle_timeout_seconds,
  lower_int_le dep.max_concurrent_per_key o.max_concurrent_per_key,
  lower_int_le dep.requests_per_second o.requests_per_second,
  lower_int_le dep.burst_capacity o.burst_capacity,
  lower_int_le dep.requests_per_minute o.requests_per_minute,
)

-- What an admitted override stands for: itself in its unit, or the ceiling where it is zero.
unfoldable pub in_force : ℕ → ℕ → ℤ → ℕ
in_force ceiling unit (pos zero) = ceiling
in_force ceiling unit (pos (suc v)) = suc v * unit
in_force ceiling unit (negsuc v) = ceiling

abbrev pub Enforced : EffectiveLimits → EffectiveLimits → TenantLimits → Type 0
Enforced eff dep o =
    (eff.max_request_bytes ≡ in_force dep.max_request_bytes 1 o.max_request_bytes)
    × (eff.request_timeout ≡ in_force dep.request_timeout second o.request_timeout_seconds)
    × (eff.stream_idle_timeout
        ≡ in_force dep.stream_idle_timeout second o.stream_idle_timeout_seconds)
    × (eff.max_concurrent_per_key ≡ in_force dep.max_concurrent_per_key 1 o.max_concurrent_per_key)
    × (eff.requests_per_second ≡ in_force dep.requests_per_second 1 o.requests_per_second)
    × (eff.burst_capacity ≡ in_force dep.burst_capacity 1 o.burst_capacity)
    × (eff.requests_per_minute ≡ in_force dep.requests_per_minute 1 o.requests_per_minute)

wrapped_small : (n : ℕ) → n < two_to_63 → n % two_to_64 ≡ n
wrapped_small n h = omega arith

int64_small : (n : ℕ) → n < two_to_63 → int64 (pos n) ≡ pos n
unfolding int64
int64_small n h = ground (arith, wrapped_small n h)

lower_int_checked :
    (p : Param) (v : ℤ) (ceiling : ℕ)
    → check_limit p v ceiling ≡ none
    → lower_int ceiling v ≡ in_force ceiling 1 v
unfolding check_limit lower_int in_force
lower_int_checked p (pos zero) ceiling h = ground arith
lower_int_checked p (pos (suc v)) ceiling h = ground arith
lower_int_checked p (negsuc v) ceiling h = refl

whole_seconds : (v ceiling : ℕ) → v ≤ ceiling / second → v * second ≤ ceiling
whole_seconds v ceiling h = omega arith

lower_duration_checked :
    (p : Param) (v : ℤ) (ceiling : ℕ)
    → ceiling < two_to_63
    → check_limit p v (ceiling / second) ≡ none
    → lower_duration ceiling v ≡ in_force ceiling second v
unfolding check_limit lower_duration lower_int in_force scale
lower_duration_checked p (pos zero) ceiling b h = ground (arith, int64_small 0 (omega arith))
lower_duration_checked p (pos (suc v)) ceiling b h =
    let fits = whole_seconds (suc v) ceiling (ground (arith, h)) in
    ground (arith, fits, int64_small (suc v * second) (omega arith))
lower_duration_checked p (negsuc v) ceiling b h = absurd (ground (arith, h))

first_error-cons :
    (p : Param) (v : ℤ) (ceiling : ℕ) (fs : List (Param × ℤ × ℕ))
    → first_error ((p, v, ceiling) ∷ fs) ≡ none
    → (check_limit p v ceiling ≡ none) × (first_error fs ≡ none)
unfolding first_error
first_error-cons p v ceiling fs h = ground (arith, h)

-- Where validation lets a tenant's overrides in and the deployment's timeouts are int64 values, the
-- limits in force for the tenant are its overrides, and the deployment's limits where an override is zero.
pub limits_for-Enforced :
    (dep : EffectiveLimits) (o : TenantLimits)
    → dep.request_timeout < two_to_63
    → dep.stream_idle_timeout < two_to_63
    → validate_tenant_limits dep o ≡ none
    → Enforced (limits_for dep (some o)) dep o
unfolding limits_for validate_tenant_limits
limits_for-Enforced dep o t i h =
    let c1 = first_error-cons _ o.max_request_bytes dep.max_request_bytes _ h in
    let c2 = first_error-cons _ o.request_timeout_seconds (dep.request_timeout / second) _ c1.1 in
    let c3 =
      first_error-cons _ o.stream_idle_timeout_seconds (dep.stream_idle_timeout / second) _ c2.1 in
    let c4 = first_error-cons _ o.max_concurrent_per_key dep.max_concurrent_per_key _ c3.1 in
    let c5 = first_error-cons _ o.requests_per_second dep.requests_per_second _ c4.1 in
    let c6 = first_error-cons _ o.burst_capacity dep.burst_capacity _ c5.1 in
    let c7 = first_error-cons _ o.requests_per_minute dep.requests_per_minute _ c6.1 in
    (
      lower_int_checked _ o.max_request_bytes dep.max_request_bytes c1.0,
      lower_duration_checked _ o.request_timeout_seconds dep.request_timeout t c2.0,
      lower_duration_checked _ o.stream_idle_timeout_seconds dep.stream_idle_timeout i c3.0,
      lower_int_checked _ o.max_concurrent_per_key dep.max_concurrent_per_key c4.0,
      lower_int_checked _ o.requests_per_second dep.requests_per_second c5.0,
      lower_int_checked _ o.burst_capacity dep.burst_capacity c6.0,
      lower_int_checked _ o.requests_per_minute dep.requests_per_minute c7.0,
    )
