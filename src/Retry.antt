-- ===== src/Retry.antt =====
-- provider.go: the retry configuration, BaseProvider and the loop of Retry.
mod Tests
pub mod Laws
use gsmail.Prelude.{
  ℕ, zero, suc, ◌≡◌, Bool, true, false, Option, none, some, List, [], ◌∷◌, if◌then◌else◌,
}
use gsmail.Prelude.Int.{ℤ, pos, pos_part, ltb_ℤ, leb_ℤ}
use gsmail.Errors.{Error, is_retryable, retry_after, errors_join}

-- What the code uses of float64: the test c < 1, the literal 2.0, and the conversion
-- time.Duration(float64(d) * m) of a product back to an integer.
pub record FloatOps (F : Type 0) : Type 0 where
  pub below_one : F → Bool
  pub two : F
  pub scale : ℤ → F → ℤ
  pub two_not_below : below_one two ≡ false

pub record RetryConfig (F : Type 0) : Type 0 where
  pub max_retries : ℤ
  pub initial_interval : ℤ
  pub max_interval : ℤ
  pub multiplier : F

-- Durations are nanoseconds.

abbrev or_duration : ℤ → ℤ → ℤ
or_duration d fallback = if leb_ℤ d (pos 0) then fallback else d

module _ {F : Type 0} (ops : FloatOps F) where
  open ops use {below_one, two, scale}

  abbrev pub default_retry_config : RetryConfig F
  default_retry_config = record {
    max_retries = pos 3;
    initial_interval = pos 500000000;
    max_interval = pos 5000000000;
    multiplier = two;
  }

  unfoldable pub normalize : RetryConfig F → RetryConfig F
  normalize c = record {
    max_retries = if ltb_ℤ c.max_retries (pos 0) then pos 0 else c.max_retries;
    initial_interval = or_duration c.initial_interval default_retry_config.initial_interval;
    max_interval = or_duration c.max_interval default_retry_config.max_interval;
    multiplier = if below_one c.multiplier then two else c.multiplier;
  }

  -- A BaseProvider is its atomic pointer, nil at first.
  abbrev pub BaseProvider : Type 0
  BaseProvider = Option (RetryConfig F)

  unfoldable pub set_retry_config : RetryConfig F → BaseProvider → BaseProvider
  unfolding normalize
  set_retry_config config p = some (normalize config)

  unfoldable pub get_retry_config : BaseProvider → RetryConfig F
  get_retry_config none = default_retry_config
  get_retry_config (some c) = c

  -- the interval after the one just waited
  unfoldable pub next_interval : RetryConfig F → ℤ → ℤ
  next_interval c interval =
      let scaled = scale interval c.multiplier in
      if ltb_ℤ c.max_interval scaled then c.max_interval else scaled

-- What Retry calls: `attempt` is fn, `done` is ctx.Err() once ctx.Done is closed, and `sleep`
-- waits on the timer and ctx.Done, true where ctx.Done came first.
pub record Env (S : Type 0) : Type 0 where
  pub attempt : S → Option Error × S
  pub done : S → Option Error
  pub sleep : ℤ → S → Bool × S

-- time.NewTimer(wait): the hint of the error, if it has one, and else the interval
unfoldable pub wait_of : ℤ → Error → ℤ
wait_of interval e = elim (retry_after e) [ none ↦ interval | some d ↦ d ]

module _ {F : Type 0} (ops : FloatOps F) {S : Type 0} (env : Env S) where
  open env use {attempt, done, sleep}

  -- The rest of the loop after an attempt, `none` in the last round (i == MaxRetries).
  abbrev Again : Type 0
  Again = Option (ℤ → Option Error → S → Option Error × S)

  slept :
      RetryConfig F
      → (ℤ → Option Error → S → Option Error × S)
      → ℤ
      → Error
      → Bool × S
      → Option Error × S
  slept c loop interval e (true, s) = (errors_join (done s ∷ some e ∷ []), s)
  slept c loop interval e (false, s) = loop (next_interval ops c interval) (some e) s

  backoff : RetryConfig F → Again → ℤ → Error → S → Option Error × S
  unfolding slept
  backoff c none interval e s = (some e, s)
  backoff c (some loop) interval e s = slept c loop interval e (sleep (wait_of interval e) s)

  tried : RetryConfig F → Again → ℤ → Option Error × S → Option Error × S
  unfolding backoff
  tried c again interval (none, s) = (none, s)
  tried c again interval (some e, s) =
      if is_retryable (some e) then backoff c again interval e s else (some e, s)

  -- a round, from the check of ctx.Done before its attempt
  entered : RetryConfig F → Again → ℤ → Option Error → S → Option Error → Option Error × S
  unfolding tried
  entered c again interval last s (some e) = (errors_join (some e ∷ last ∷ []), s)
  entered c again interval last s none = tried c again interval (attempt s)

  -- `left` is MaxRetries - i.
  pub retry_loop : RetryConfig F → (left : ℕ) → ℤ → Option Error → S → Option Error × S
  unfolding entered
  retry_loop c zero interval last s = entered c none interval last s (done s)
  retry_loop c (suc left) interval last s =
      entered c (some (retry_loop c left)) interval last s (done s)

  unfoldable pub retry : RetryConfig F → S → Option Error × S
  unfolding retry_loop
  retry config s =
      let c = normalize ops config in
      retry_loop c (pos_part c.max_retries) c.initial_interval none s
