-- ===== src/Errors/Tests.antt =====
-- provider.go, httperror.go: the theorems on error classification at concrete errors.
use gsmail.Prelude.{◌≤◌, ◌≡◌, refl, ◌⊎◌, ◌↔◌, true, some, []}
use gsmail.Prelude.Int.{pos}
use gsmail.Errors.{HttpError, http_error, errors_is, errors_as, http_retryable, is_retryable}
use gsmail.Errors.Laws.{wraps, is_retryable-http}

abbrev throttled : HttpError
throttled = record { provider = []; status_code = 429; body = []; delay = pos 5 }

-- HTTPError with status 429 is retryable, and its hint is found.
throttled-is_retryable : is_retryable (some (http_error throttled)) ≡ true
unfolding is_retryable errors_is errors_as http_retryable
throttled-is_retryable = refl

is_retryable-http_example : (is_retryable (some (wraps 3 (http_error throttled))) ≡ true) ↔ (
    (throttled.status_code ≡ 408) ⊎ (throttled.status_code ≡ 429) ⊎ (500 ≤ throttled.status_code))
is_retryable-http_example = is_retryable-http 3 throttled
