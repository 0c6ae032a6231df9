-- ===== src/Admin/Policies.antt =====
-- gateway/internal/server/capture.go, server/cache.go and server/limits.go: what the handlers check of a tenant's
-- policies and how they read them. What the source types as int comes from the body as an integer, and a rate is a
-- number of millionths. A product that wraps below zero counts as 0.
use cogni_gate.Prelude.{
  ℕ, ◌/◌, ◌*◌, ltb, leb, ◌&&◌, ◌||◌, Bool, true, false, Option, none, some, List, [], ◌∷◌, ◌++◌,
  if◌then◌else◌, Text, codes, ℤ, pos, negsuc, int64, scale,
}
use cogni_gate.Memory.{TenantCache, TenantDebugCapture}
use cogni_gate.Limits.{
  LimitError, negative, above, Param, max_request_bytes_param, request_timeout_seconds_param,
  stream_idle_timeout_seconds_param, max_concurrent_per_key_param, requests_per_second_param,
  burst_capacity_param, requests_per_minute_param,
}
use cogni_gate.Server.ApiErrors.{ApiError, invalid_request, with_param, capture_ttl_too_long}
use cogni_gate.Admin.{AdminConfig, Externals, bad_when}

-- The parameter's name in an error.
unfoldable pub param_name : Param → Text
param_name max_request_bytes_param = codes "limits.max_request_bytes"
param_name request_timeout_seconds_param = codes "limits.request_timeout_seconds"
param_name stream_idle_timeout_seconds_param = codes "limits.stream_idle_timeout_seconds"
param_name max_concurrent_per_key_param = codes "limits.max_concurrent_per_key"
param_name requests_per_second_param = codes "limits.requests_per_second"
param_name burst_capacity_param = codes "limits.burst_capacity"
param_name requests_per_minute_param = codes "limits.requests_per_minute"

abbrev pub second : ℕ
second = 1000000000

abbrev pub hour : ℕ
hour = 3600000000000

abbrev pub is_negative : ℤ → Bool
is_negative (pos _) = false
is_negative (negsuc _) = true

abbrev pub magnitude : ℤ → ℕ
magnitude (pos n) = n
magnitude (negsuc _) = 0

-- `time.Duration(seconds) * time.Second > max`, in int64.
unfoldable pub longer_than : ℤ → ℕ → Bool
longer_than seconds max = ltb max (magnitude (int64 (scale seconds second)))

pub record CacheRequest : Type 0 where
  pub enabled : Bool
  pub ttl_seconds : ℤ

pub record DebugCaptureRequest : Type 0 where
  pub enabled : Bool
  pub ttl_seconds : ℤ
  pub sample_rate : ℤ

-- What is stored of a policy that passed its check.
unfoldable pub cache_policy : CacheRequest → TenantCache
cache_policy r = record { enabled = r.enabled; ttl_seconds = magnitude r.ttl_seconds }

unfoldable pub capture_policy : DebugCaptureRequest → TenantDebugCapture
capture_policy r = record {
  enabled = r.enabled;
  ttl_seconds = magnitude r.ttl_seconds;
  sample_rate = magnitude r.sample_rate;
}

module _ (x : Externals) (conf : AdminConfig) where
  unfoldable pub limit_error : LimitError → ApiError
  limit_error (negative p) =
      with_param (param_name p) (invalid_request (param_name p ++ codes " must not be negative."))
  limit_error (above p v ceiling) = with_param (param_name p) (
      invalid_request (
        param_name p
        ++ codes " is "
        ++ x.decimal v
        ++ codes ", above the deployment ceiling of "
        ++ x.decimal ceiling
        ++ codes ". A tenant limit may only narrow one."))

  unfoldable pub validate_tenant_cache : CacheRequest → Option ApiError
  validate_tenant_cache p =
      if is_negative p.ttl_seconds
      then some (
          with_param (codes "cache.ttl_seconds")
            (invalid_request (codes "cache.ttl_seconds must not be negative.")))
      else (if longer_than p.ttl_seconds conf.cache_max_ttl
          then some (
              with_param (codes "cache.ttl_seconds") (
                invalid_request (
                  codes "cache.ttl_seconds is "
                  ++ x.decimal (magnitude p.ttl_seconds)
                  ++ codes ", above the deployment ceiling of "
                  ++ x.decimal (conf.cache_max_ttl / second)
                  ++ codes ".")))
          else none)

  unfoldable pub validate_tenant_debug_capture : DebugCaptureRequest → Option ApiError
  validate_tenant_debug_capture p =
      if is_negative p.ttl_seconds
      then some (
          with_param (codes "debug_capture.ttl_seconds")
            (invalid_request (codes "debug_capture.ttl_seconds must not be negative.")))
      else if longer_than p.ttl_seconds conf.debug_max_ttl
      then some (capture_ttl_too_long x.quote x.decimal (conf.debug_max_ttl / hour))
      else bad_when (is_negative p.sample_rate || ltb 1000000 (magnitude p.sample_rate))
          (codes "debug_capture.sample_rate must be within 0..1.")
          (codes "debug_capture.sample_rate")

  unfoldable pub capture_ttl : TenantDebugCapture → ℕ
  capture_ttl p =
      let ttl =
        if ltb 0 p.ttl_seconds
        then magnitude (int64 (pos (p.ttl_seconds * second)))
        else conf.debug_default_ttl in
      if ltb conf.debug_max_ttl ttl then conf.debug_max_ttl else ttl

  unfoldable pub capture_sample_rate : TenantDebugCapture → ℕ
  capture_sample_rate p =
      if ltb 0 p.sample_rate then p.sample_rate else conf.debug_default_sample_rate

  unfoldable pub capture_warnings : TenantDebugCapture → List Text
  capture_warnings p =
      if p.enabled && leb 1000000 p.sample_rate
      then (codes
            "debug_capture.sample_rate is 1.0: every request and response body for this tenant will be retained for "
          ++ x.duration (capture_ttl p)
          ++ codes
              " and readable through the admin plane. Prefer a sample below 1.0 unless a specific investigation needs all of it.")
        ∷ []
      else []
