-- ===== src/Errors/Laws.antt =====
-- provider.go, httperror.go: which errors Retry gives up on.
use gsmail.Prelude.{ℕ, zero, suc, ◌≤◌, ◌≡◌, refl, ◌⊎◌, ◌↔◌, true, false, some, arith}
use gsmail.Errors.{
  Error, HttpError, errorf, non_retryable_error, http_error, errors_as, errors_is, is_retryable,
  http_retryable, retry_after,
}

-- How often an error is wrapped by fmt.Errorf with %w.
unfoldable pub wraps : ℕ → Error → Error
wraps zero e = e
wraps (suc n) e = errorf (wraps n e)

-- Wrapping an error by fmt.Errorf, any number of times, changes neither whether it is retryable nor
-- the delay that it carries.
pub is_retryable-wraps :
    (n : ℕ) (e : Error)
    → (is_retryable (some (wraps n e)) ≡ is_retryable (some e))
      × (retry_after (wraps n e) ≡ retry_after e)
unfolding wraps is_retryable retry_after errors_is errors_as
is_retryable-wraps zero e = (refl, refl)
is_retryable-wraps (suc n) e = is_retryable-wraps n e

-- An error marked by NonRetryable is permanent, whatever it wraps and however it is wrapped after.
pub is_retryable-non_retryable :
    (n : ℕ) (e : Error) → is_retryable (some (wraps n (non_retryable_error e))) ≡ false
unfolding is_retryable errors_is errors_as
is_retryable-non_retryable n e =
    rw ((is_retryable-wraps n (non_retryable_error e)).0) (ground arith)

-- A provider's HTTP failure, however wrapped by fmt.Errorf, is retried exactly on 408, on 429 and
-- on every status from 500 up, those from 600 up included.
pub is_retryable-http :
    (n : ℕ) (h : HttpError)
    → (is_retryable (some (wraps n (http_error h))) ≡ true)
      ↔ ((h.status_code ≡ 408) ⊎ (h.status_code ≡ 429) ⊎ (500 ≤ h.status_code))
unfolding is_retryable errors_is errors_as http_retryable
is_retryable-http n h = rw ((is_retryable-wraps n (http_error h)).0) (ground arith)
