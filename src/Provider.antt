-- ===== src/Provider.antt =====
-- gateway/internal/provider/provider.go: what an upstream exchange comes back as. `Response` keeps
-- the fields that routing reads: `retry_after` is the Retry-After header, absent where the header
-- map is nil.
use cogni_gate.Prelude.{ℕ, Bool, ◌&&◌, Option, Text, ltb, leb, ◌==◌, if◌then◌else◌}

pub data FailureKind : Type 0 where
  fail_none fail_transport fail_server fail_rate_limit fail_client : FailureKind

unfoldable pub retryable : FailureKind → Bool
retryable fail_transport = Bool.true
retryable fail_server = Bool.true
retryable fail_rate_limit = Bool.true
retryable _ = Bool.false

unfoldable pub classify : ℕ → FailureKind
classify status =
    if leb 200 status && ltb status 300
    then fail_none
    else if status == 429
    then fail_rate_limit
    else if leb 500 status
    then fail_server
    else if leb 400 status
    then fail_client
    else fail_server

pub record Credential : Type 0 where
  pub base_url : Text
  pub api_key : Text

pub record Request : Type 0 where
  pub model : Text
  pub body : Text
  pub stream : Bool
  pub path : Text

pub record Response : Type 0 where
  pub status_code : ℕ
  pub retry_after : Option Text
  pub body : Text
  pub failure : FailureKind

-- The error beside a response: `ErrResponseTooLarge`, or any other.
pub data DoError : Type 0 where
  response_too_large other_error : DoError
