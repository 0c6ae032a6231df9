-- ===== src/Server/Answers.antt =====
-- gateway/internal/httpx/httpx.go: Fail, the one place that writes an error, with From of
-- gateway/internal/apierr/apierr.go. An error that is no ApiError is `none`.
use cogni_gate.Prelude.{
  ℕ, ◌≡◌, ◌-◌, ◌*◌, ◌+◌, ◌/◌, ◌≤◌, ◌<◌, ◌==◌, ◌&&◌, ltb, [], Option, none, some, Text, text_eq,
  codes, if◌then◌else◌, arith, ◌≢◌, ◌⊎◌, inl, inr, text_dec,
}
use cogni_gate.Server.ApiErrors.{
  ApiError, Body, envelope, with_retry_after, new_err, api_error, code_internal_error,
}

unfoldable pub internal_error : ApiError
internal_error =
    new_err 500 api_error code_internal_error (codes "The gateway encountered an internal error.")

unfoldable pub from : Option ApiError → ApiError
from none = internal_error
from (some e) = e

pub record Answer : Type 0 where
  pub status : ℕ
  pub retry_after : Option ℕ
  pub body : Body

-- `c.Get` reads the header of the request; `asked` is what the request has in Retry-After, empty for none.
unfoldable pub fail : Text → Text → Option ApiError → Answer
fail request_id asked err =
    let e = from err in
    record {
      status = e.status;
      retry_after =
          if e.status == 429 && text_eq asked []
          then some (if ltb e.retry_after_seconds 1 then 1 else e.retry_after_seconds)
          else none;
      body = envelope request_id e;
    }

-- The seconds that a wait is announced as: they cover it, and they are the least number that does, or one.
abbrev pub Covers : ℕ → ℕ → Type 0
Covers d n = (d ≤ n * 1000000000) × (1 ≤ n) × ((n ≡ 1) ⊎ ((n - 1) * 1000000000 < d))

-- A refusal with status 429 that states a wait: where the request brings no Retry-After header of its own, the answer
-- names the least number of seconds that covers the wait, one at least; where it brings one, the answer names none.
pub fail-RetryAfter :
    (request_id asked : Text) (d : ℕ) (e : ApiError)
    → e.status ≡ 429
    → ((asked ≡ [])
        × ((n : ℕ) × ((fail request_id asked (some (with_retry_after d e))).retry_after ≡ some n)
            × Covers d n))
      ⊎ ((asked ≢ []) × ((fail request_id asked (some (with_retry_after d e))).retry_after ≡ none))
unfolding fail from with_retry_after
fail-RetryAfter request_id asked d e limited = elim (text_dec asked []) [
  | yes none_asked ↦ inl (
    none_asked,
    (
      (if ltb ((d + 999999999) / 1000000000) 1 then 1 else (d + 999999999) / 1000000000),
      ground (arith, limited, none_asked),
      (ground arith, ground arith, ground arith),
    ),
  )
  | no some_asked ↦ inr (some_asked, ground (arith, limited, some_asked))
]
