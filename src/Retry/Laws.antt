-- ===== src/Retry/Laws.antt =====
-- provider.go: what Retry does with the attempts, and what the configuration becomes.
mod Rules
use gsmail.Prelude.{
  ℕ, zero, suc, ◌+◌, ◌≤◌, ◌≡◌, ◌≢◌, refl, ◌∙◌, Bool, true, false, Option, none, some, arith, inl,
  inr, ◌⊎◌, List, [], ◌∷◌, Option-cases,
}
use gsmail.Prelude.Int.{ℤ, ltb_ℤ, pos, negsuc, pos_part}
use gsmail.Errors.{Error, errors_join, is_retryable}
use gsmail.Retry.{
  FloatOps, RetryConfig, Env, BaseProvider, normalize, set_retry_config, get_retry_config, retry,
  retry_loop, tried, default_retry_config,
}
use Rules.{retry_loop_rule, retry_round_live}

module _ {F : Type 0} (ops : FloatOps F) where
  -- The stored configuration is what was set with unset fields filled in: filling in again changes
  -- nothing, no interval is left zero or negative and no multiplier below one, and MaxRetries is
  -- kept unless it is negative, and is then zero.
  pub get-set_retry_config :
      (c : RetryConfig F) (p : BaseProvider ops)
      → let stored = get_retry_config ops (set_retry_config ops c p) in
        (normalize ops stored ≡ stored)
        × (stored.max_retries ≡ pos (pos_part c.max_retries))
        × (ltb_ℤ (pos 0) stored.initial_interval ≡ true)
        × (ltb_ℤ (pos 0) stored.max_interval ≡ true)
        × (ops.below_one stored.multiplier ≡ false)
  unfolding get_retry_config set_retry_config
  get-set_retry_config c p = (
    ground (arith, ops.two_not_below),
    ground arith,
    ground arith,
    ground arith,
    ground (arith, ops.two_not_below),
  )

errors_join-ne-none :
    (a b : Option Error) → (a ≢ none) ⊎ (b ≢ none) → errors_join (a ∷ b ∷ []) ≢ none
unfolding errors_join
errors_join-ne-none none none h = ground arith
errors_join-ne-none none (some b) h = ground arith
errors_join-ne-none (some a) none h = ground arith
errors_join-ne-none (some a) (some b) h = ground arith

normalize_retries :
    {F : Type 0} (ops : FloatOps F) (c : RetryConfig F)
    → pos_part (normalize ops c).max_retries ≡ pos_part c.max_retries
unfolding normalize
normalize_retries ops c = ground arith

module _ {F : Type 0} (ops : FloatOps F) {S : Type 0} (env : Env S) where
  open env use {attempt, done, sleep}

  -- Where the context is live, an attempt that succeeds or fails for good ends Retry with its own
  -- outcome, with no wait.
  pub retry_first :
      (config : RetryConfig F) (s : S)
      → done s ≡ none
      → is_retryable (attempt s).0 ≡ false
      → retry ops env config s ≡ attempt s
  unfolding retry
  retry_first config s live final =
      retry_round_live ops env _ (pos_part (normalize ops config).max_retries) _ none s live final

  -- Where no attempt ever succeeds, Retry does not report success.
  pub retry-ne-none :
      (config : RetryConfig F) (s : S)
      → ((t : S) → (attempt t).0 ≢ none)
      → (retry ops env config s).0 ≢ none
  unfolding retry
  retry-ne-none config s fails =
      retry_loop_rule ops env (λ left s1 out. out.0 ≢ none)
        (λ left e last t _. errors_join-ne-none (some e) last (inl (λ p. cc))) (λ left t _. fails t)
        (λ e t _ p. cc) (λ left e d t _. errors_join-ne-none _ (some e) (inr (λ p. cc)))
        (λ left d t out h. h) _ _ _ _ _

  module _ (calls : S → ℕ) (calls-attempt : (s : S) → calls (attempt s).1 ≡ suc (calls s))
      (calls-sleep : (d : ℤ) (s : S) → calls (sleep d s).1 ≡ calls s) where
    -- Retry makes at most MaxRetries + 1 attempts (one where MaxRetries is negative), by any count
    -- that each attempt raises by one and waiting leaves alone.
    pub calls-retry :
        (config : RetryConfig F) (s : S)
        → calls (retry ops env config s).1 ≤ calls s + pos_part config.max_retries + 1
    unfolding retry
    calls-retry config s = omega (
      arith,
      normalize_retries ops config,
      retry_loop_rule ops env (λ left t out. calls out.1 ≤ calls t + left + 1)
          (λ left e last t _. omega arith) (λ left t _. omega (arith, calls-attempt t))
          (λ e t _. omega (arith, calls-attempt t))
          (λ left e d t _. omega (arith, calls-attempt t, calls-sleep d (attempt t).1))
          (λ left d t out h. omega (arith, calls-attempt t, calls-sleep d (attempt t).1)) _ _ _ _ _,
    )

    -- While every attempt fails with a retryable error, the context stays live and no wait is cut
    -- short, Retry makes all of its MaxRetries + 1 attempts (one where MaxRetries is negative), by
    -- any count that each attempt raises by one and waiting leaves alone.
    pub calls-retry_all :
        (config : RetryConfig F) (s : S)
        → ((t : S) → done t ≡ none)
        → ((d : ℤ) (t : S) → (sleep d t).0 ≡ false)
        → ((t : S) → is_retryable (attempt t).0 ≡ true)
        → calls (retry ops env config s).1 ≡ calls s + pos_part config.max_retries + 1
    unfolding retry
    calls-retry_all config s live undisturbed transient = omega (
      arith,
      normalize_retries ops config,
      retry_loop_rule ops env (λ left t out. calls out.1 ≡ calls t + left + 1)
          (λ left e last t p. cc (live t)) (λ left t p. cc (transient t))
          (λ e t _. omega (arith, calls-attempt t))
          (λ left e d t p. cc (undisturbed d (attempt t).1))
          (λ left d t out h. omega (arith, calls-attempt t, calls-sleep d (attempt t).1)) _ _ _ _ _,
    )
