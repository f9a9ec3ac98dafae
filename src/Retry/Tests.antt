-- ===== src/Retry/Tests.antt =====
-- provider.go: the theorems on Retry at a concrete configuration.
use gsmail.Prelude.{
  ℕ, suc, ◌+◌, ◌*◌, ◌/◌, ◌≡◌, refl, true, false, none, some, [], ltb, if◌then◌else◌,
}
use gsmail.Prelude.Int.{ℤ, pos, negsuc}
use gsmail.Errors.{Error, http_error, is_retryable, errors_is, errors_as, http_retryable}
use gsmail.Retry.{FloatOps, RetryConfig, Env, normalize, retry}
use gsmail.Retry.Laws.{calls-retry_all}

-- multipliers in tenths
abbrev tenths_of : ℤ → ℕ → ℤ
tenths_of (pos d) m = pos (d * m / 10)
tenths_of (negsuc d) m = negsuc d

abbrev tenths : FloatOps ℕ
tenths = record { below_one = λ m. ltb m 10; two = 20; scale = tenths_of; two_not_below = refl }

abbrev config : RetryConfig ℕ
config = record {
  max_retries = pos 2;
  initial_interval = pos 0;
  max_interval = pos 1500;
  multiplier = 5;
}

abbrev unavailable : Error
unavailable = http_error (record { provider = []; status_code = 503; body = []; delay = pos 0 })

-- The state counts the attempts.
abbrev failing : Env ℕ
failing = record {
  attempt = λ n. (some unavailable, suc n);
  done = λ n. none;
  sleep = λ d n. (false, n);
}

abbrev recovering : Env ℕ
recovering = record {
  attempt = λ n. ((if ltb n 1 then some unavailable else none), suc n);
  done = λ n. none;
  sleep = λ d n. (false, n);
}

-- The second attempt succeeds, and there is no third.
recovers : retry tenths recovering config 0 ≡ (none, 2)
unfolding retry is_retryable normalize errors_is errors_as http_retryable
recovers = refl

unavailable-is_retryable : is_retryable (some unavailable) ≡ true
unfolding is_retryable errors_is errors_as http_retryable
unavailable-is_retryable = refl

calls-retry_all_example : (retry tenths failing config 0).1 ≡ 0 + 2 + 1
calls-retry_all_example =
    calls-retry_all tenths failing (λ n. n) (λ n. refl) (λ d n. refl) config 0 (λ t. refl)
      (λ d t. refl) (λ t. unavailable-is_retryable)
