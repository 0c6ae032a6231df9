-- ===== src/Limits/Tests.antt =====
-- The limits on concrete requests.
use cogni_gate.Prelude.{
  List, inr, insert, ◌+◌, ◌*◌, ◌≡◌, ◌≤◌, refl, [], ◌∷◌, arith, Text, codes, true, pos, ltb, lookup,
  text_dec,
}
use cogni_gate.Limits.{TenantLimits, EffectiveLimits, second}
use cogni_gate.Limits.Concurrency.{acquire, limit_of}
use cogni_gate.Limits.InFlight.{
  acquired, released, happen_all, fresh, out, is_permit, acquire_when_out,
}
use cogni_gate.Limits.Rates.{
  Rates, Bucket, with_first, charged, first_bucket, take, bucket_on, spend, denied, arrive, refill,
  refilled, capped, wait_of, minute_full, minute_on, token_wait,
}
use cogni_gate.Limits.RateBound.{TakeCall, admitted, elapsed, takes-bounded}
use cogni_gate.Limits.Retry.{Reached, take-retry}

abbrev deployment : EffectiveLimits
deployment = record {
  max_request_bytes = 2097152;
  request_timeout = 120 * second;
  stream_idle_timeout = 60 * second;
  max_concurrent_per_key = 32;
  requests_per_second = 50;
  burst_capacity = 100;
  requests_per_minute = 3600;
}

abbrev narrowed : TenantLimits
narrowed = record {
  max_request_bytes = pos 4096;
  request_timeout_seconds = pos 30;
  stream_idle_timeout_seconds = pos 0;
  max_concurrent_per_key = pos 2;
  requests_per_second = pos 0;
  burst_capacity = pos 10;
  requests_per_minute = pos 60;
}

abbrev shared : Text
shared = codes "k"

acquire_when_out_example :
    let w =
      happen_all (fresh 1) (acquired shared 2 ∷ acquired shared 2 ∷ released 0 ∷ released 0 ∷ []) in
    is_permit (acquire w.limiter shared 2).1 ≡ ltb (out w.issued shared) (limit_of w.limiter 2)
acquire_when_out_example =
    acquire_when_out 1 (acquired shared 2 ∷ acquired shared 2 ∷ released 0 ∷ released 0 ∷ []) shared
      2

abbrev ten_a_second : Rates
ten_a_second = record { rps = 10; burst = 2; rpm = 60 }

abbrev spent : Bucket
spent = record { tokens = 0; last = 500; minute_start = 100; minute_count = 3 }

abbrev acme : Text
acme = codes "acme"

-- Two calls of acme with one of another tenant, at another rate, between them.
abbrev mixed : List TakeCall
mixed =
    record { tenant = acme; rates = ten_a_second; gap = 200000000 }
    ∷ record { tenant = codes "other"; rates = record ten_a_second { rps = 5 }; gap = 0 }
    ∷ record { tenant = acme; rates = ten_a_second; gap = 0 }
    ∷ []

takes-bounded_example :
    admitted acme ((acme, spent) ∷ []) spent.last mixed * second ≤ 0 + elapsed mixed * 10
unfolding lookup text_dec bucket_on take spend denied arrive refill refilled capped wait_of
    minute_full minute_on token_wait with_first insert charged first_bucket
takes-bounded_example =
    takes-bounded ((acme, spent) ∷ []) acme ten_a_second spent mixed refl
      ((λ h. refl), ((λ h. absurd (ground (arith, h))), ((λ h. refl), tt)))
      (inr (omega arith), (inr (omega arith), (inr (omega arith), tt))) refl

spent-Reached : Reached ((acme, spent) ∷ []) acme 600
unfolding lookup text_dec
spent-Reached b h = ground (arith, h)

take-retry_example :
    (take (take ((acme, spent) ∷ []) acme ten_a_second 600).0 acme ten_a_second 200000000).2 ≡ true
unfolding take lookup text_dec bucket_on spend denied arrive refill refilled capped wait_of
    minute_full minute_on token_wait
take-retry_example =
    take-retry ((acme, spent) ∷ []) acme ten_a_second 600 200000000 spent-Reached refl (omega arith)
