-- ===== src/Providers/Errors.antt =====
-- packages/providers/src/errors.ts and provider.ts: requests, results and classified errors.
use makedown.Base.{ℕ, Text, Option, List, Bool, true, false, ◌||◌, ◌==◌, leb, nat_eq, if◌then◌else◌}
use makedown.Types.{Fields, RoutePolicy, TokenUsage}

pub record CompletionRequest : Type 0 where
  pub model : Text
  pub system : Option Text
  pub prompt : Text
  pub params : Fields
  pub fallback : Option (List Text)
  pub route : Option RoutePolicy

-- A cost is in millionths of a dollar.
pub record CompletionResult : Type 0 where
  pub text : Text
  pub usage : TokenUsage
  pub cost_usd : Option ℕ
  pub model : Option Text

pub data ProviderErrorKind : Type 0 where
  rate_limit overload server timeout unavailable auth bad_request unknown : ProviderErrorKind

pub record ProviderError : Type 0 where
  pub message : Text
  pub kind : ProviderErrorKind
  pub provider : Text
  pub status : Option ℕ
  pub retry_after_ms : Option ℕ

-- What `catch` may see: a `ProviderError`, or any other value, by its message.
pub data Thrown : Type 0 where
  provider_error : ProviderError → Thrown
  other_error : Text → Thrown

-- Membership in `RETRYABLE_KINDS`.
abbrev pub retryable_kind : ProviderErrorKind → Bool
retryable_kind rate_limit = true
retryable_kind overload = true
retryable_kind server = true
retryable_kind timeout = true
retryable_kind unavailable = true
retryable_kind _ = false

-- Membership in `RETRY_SAME_MODEL_KINDS`.
abbrev pub retry_same_model_kind : ProviderErrorKind → Bool
retry_same_model_kind rate_limit = true
retry_same_model_kind overload = true
retry_same_model_kind server = true
retry_same_model_kind timeout = true
retry_same_model_kind _ = false

unfoldable pub is_retryable : Thrown → Bool
is_retryable (provider_error e) = retryable_kind e.kind
is_retryable (other_error m) = false

unfoldable pub should_retry_same_model : Thrown → Bool
should_retry_same_model (provider_error e) = retry_same_model_kind e.kind
should_retry_same_model (other_error m) = false

unfoldable pub kind_from_status : ℕ → ProviderErrorKind
kind_from_status status =
    if status == 429
    then rate_limit
    else if status == 503
    then overload
    else if status == 408 || status == 504
    then timeout
    else if status == 404
    then unavailable
    else if leb 500 status
    then server
    else if status == 401 || status == 403
    then auth
    else if status == 400 || status == 422
    then bad_request
    else unknown
