-- ===== src/Server/ApiErrors.antt =====
-- gateway/internal/apierr/apierr.go: the errors that reach a caller. The verbs of fmt.Sprintf are arguments, a
-- duration is a number of nanoseconds, and the wrapped cause, which only the logs read, is left out.
use cogni_gate.Prelude.{
  ℕ, ◌+◌, ◌/◌, ltb, List, [], ◌++◌, Option, none, some, Text, text_eq, codes, if◌then◌else◌,
}

pub data ErrorType : Type 0 where
  invalid_request_error : ErrorType
  authentication_error : ErrorType
  rate_limit_error : ErrorType
  api_error : ErrorType

pub data Code : Type 0 where
  code_invalid_api_key : Code
  code_wrong_plane : Code
  code_invalid_request : Code
  code_fallback_duplicate : Code
  code_capture_ttl_too_long : Code
  code_unsupported_parameter : Code
  code_insufficient_scope : Code
  code_model_not_found : Code
  code_alias_unresolvable : Code
  code_not_supported : Code
  code_resource_not_found : Code
  code_alias_collides : Code
  code_conflict : Code
  code_request_too_large : Code
  code_rate_limited : Code
  code_concurrency_exceeded : Code
  code_quota_exceeded : Code
  code_budget_exceeded : Code
  code_upstream_exhausted : Code
  code_response_too_large : Code
  code_upstream_error : Code
  code_unavailable : Code
  code_gateway_timeout : Code
  code_upstream_stream_stalled : Code
  code_internal_error : Code

pub record ErrorAttempt : Type 0 where
  pub provider : Text
  pub model : Text
  pub failure : Text
  pub status : ℕ

pub record ApiError : Type 0 where
  pub status : ℕ
  pub code : Code
  pub type : ErrorType
  pub msg : Text
  pub param : Text
  pub attempts : List ErrorAttempt
  pub retry_after_seconds : ℕ

pub record Body : Type 0 where
  pub message : Text
  pub type : ErrorType
  pub code : Code
  pub param : Option Text
  pub request_id : Text
  pub attempts : List ErrorAttempt

unfoldable pub envelope : Text → ApiError → Body
envelope request_id e = record {
  message = e.msg;
  type = e.type;
  code = e.code;
  param = if text_eq e.param [] then none else some e.param;
  request_id = request_id;
  attempts = e.attempts;
}

unfoldable pub with_param : Text → ApiError → ApiError
with_param param e = record e { param = param }

unfoldable pub with_attempts : List ErrorAttempt → ApiError → ApiError
with_attempts attempts e = record e { attempts = attempts }

-- A duration that is not positive counts as 0 here; the source rounds it up to a second as well. The seconds are exact,
-- where the source rounds up a float64, which agrees as long as the float tells the nanoseconds of the duration apart.
unfoldable pub with_retry_after : ℕ → ApiError → ApiError
with_retry_after d e =
    let seconds = (d + 999999999) / 1000000000 in
    record e { retry_after_seconds = if ltb seconds 1 then 1 else seconds }

unfoldable pub new_err : ℕ → ErrorType → Code → Text → ApiError
new_err status type code msg = record {
  status = status;
  code = code;
  type = type;
  msg = msg;
  param = [];
  attempts = [];
  retry_after_seconds = 0;
}

unfoldable pub invalid_api_key : ApiError
invalid_api_key =
    new_err 401 authentication_error code_invalid_api_key (codes "Invalid API key provided.")

unfoldable pub wrong_plane : Text → ApiError
wrong_plane want =
    new_err 401 authentication_error code_wrong_plane
      (codes "This endpoint requires a " ++ want ++ codes " key.")

unfoldable pub invalid_request : Text → ApiError
invalid_request msg = new_err 400 invalid_request_error code_invalid_request msg

unfoldable pub insufficient_scope : ApiError
insufficient_scope =
    new_err 403 invalid_request_error code_insufficient_scope
      (codes "This admin key is not scoped to the requested tenant.")

unfoldable pub conflict_error : Text → ApiError
conflict_error msg = new_err 409 invalid_request_error code_conflict msg

unfoldable pub rate_limited : ApiError
rate_limited =
    new_err 429 rate_limit_error code_rate_limited
      (codes "Rate limit exceeded. Retry after the interval in the Retry-After header.")

unfoldable pub quota_exceeded_error : ApiError
quota_exceeded_error =
    new_err 429 rate_limit_error code_quota_exceeded
      (codes "Token quota exhausted for the current period.")

unfoldable pub budget_exceeded_error : ApiError
budget_exceeded_error =
    new_err 429 rate_limit_error code_budget_exceeded
      (codes "Spend budget exhausted for the current period.")

unfoldable pub upstream_error : Text → ApiError
upstream_error msg = new_err 502 api_error code_upstream_error msg

unfoldable pub unavailable_error : Text → ApiError
unavailable_error msg = new_err 503 api_error code_unavailable msg

-- `%q` and `%d`.
module _ (quote : Text → Text) (decimal : ℕ → Text) where
  unfoldable pub fallback_duplicate : Text → ApiError
  fallback_duplicate model =
      new_err 400 invalid_request_error code_fallback_duplicate
        (codes "Model " ++ quote model ++ codes " appears more than once in the fallback chain.")

  unfoldable pub capture_ttl_too_long : ℕ → ApiError
  capture_ttl_too_long max_hours =
      new_err 400 invalid_request_error code_capture_ttl_too_long
        (codes "Debug capture ttl must not exceed " ++ decimal max_hours ++ codes " hours.")

  unfoldable pub unsupported_parameter : Text → ApiError
  unsupported_parameter param = with_param param (
      new_err 400 invalid_request_error code_unsupported_parameter
        (codes "Parameter " ++ quote param ++ codes " is not supported by the resolved model."))

  unfoldable pub model_not_found_error : Text → ApiError
  model_not_found_error model = with_param (codes "model") (
      new_err 404 invalid_request_error code_model_not_found (
        codes "The model "
        ++ quote model
        ++ codes " does not exist or you do not have access to it."))

  unfoldable pub alias_unresolvable_error : Text → ApiError
  alias_unresolvable_error alias = with_param (codes "model") (
      new_err 404 invalid_request_error code_alias_unresolvable
        (codes "The alias " ++ quote alias ++ codes " resolved to no available model."))

  unfoldable pub resource_not_found : Text → Text → ApiError
  resource_not_found kind id =
      new_err 404 invalid_request_error code_resource_not_found
        (codes "No " ++ kind ++ codes " with id " ++ quote id ++ codes ".")

  unfoldable pub alias_collides : Text → ApiError
  alias_collides name = with_param (codes "name") (
      new_err 409 invalid_request_error code_alias_collides (
        codes "The alias " ++ quote name ++ codes " collides with a real model id in the catalog."))

  unfoldable pub request_too_large : ℕ → ApiError
  request_too_large limit =
      new_err 413 invalid_request_error code_request_too_large
        (codes "Request body exceeds the " ++ decimal limit ++ codes " byte limit.")

  unfoldable pub concurrency_exceeded : ℕ → ApiError
  concurrency_exceeded limit =
      new_err 429 rate_limit_error code_concurrency_exceeded
        (codes "Too many concurrent requests for this key (limit " ++ decimal limit ++ codes ").")

  unfoldable pub upstream_exhausted : ℕ → ApiError
  upstream_exhausted attempts =
      new_err 502 api_error code_upstream_exhausted
        (codes "All " ++ decimal attempts ++ codes " routing candidates failed.")

  unfoldable pub response_too_large : ℕ → ApiError
  response_too_large limit =
      new_err 502 api_error code_response_too_large
        (codes "Upstream response exceeds the " ++ decimal limit ++ codes " byte limit.")
