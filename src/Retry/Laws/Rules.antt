-- ===== src/Retry/Laws/Rules.antt =====
-- provider.go: one rule for each way a round of Retry can end.
use gsmail.Prelude.{
  ℕ, zero, suc, ◌≡◌, refl, inl, inr, Bool, true, false, Option, none, some, [], ◌∷◌, Option-cases,
  Bool-cases,
}
use gsmail.Prelude.Int.{ℤ}
use gsmail.Errors.{Error, errors_join, is_retryable}
use gsmail.Retry.{
  FloatOps, RetryConfig, Env, retry_loop, tried, backoff, slept, next_interval, wait_of,
}

module _ {F : Type 0} (ops : FloatOps F) {S : Type 0} (env : Env S) where
  open env use {attempt, done, sleep}

  slept_rule :
      (Q : Option Error × S → Type 0)
      → (c : RetryConfig F) (loop : ℤ → Option Error → S → Option Error × S) (interval : ℤ)
      → (e : Error) (p : Bool × S) → (p.0 ≡ true → Q (errors_join (done p.1 ∷ some e ∷ []), p.1))
      → (p.0 ≡ false → Q (loop (next_interval ops c interval) (some e) p.1))
      → Q (slept ops env c loop interval e p)
  unfolding slept
  slept_rule Q c loop interval e (true, s) stop go = stop refl
  slept_rule Q c loop interval e (false, s) stop go = go refl

  tried_rule :
      (Q : Option Error × S → Type 0)
      → (c : RetryConfig F) (again : Option (ℤ → Option Error → S → Option Error × S))
      → (interval : ℤ) (p : Option Error × S) → (is_retryable p.0 ≡ false → Q p)
      → ((e : Error)
          → p.0 ≡ some e
          → is_retryable p.0 ≡ true
          → Q (backoff ops env c again interval e p.1))
      → Q (tried ops env c again interval p)
  unfolding tried is_retryable
  tried_rule Q c again interval (none, s) final more = final refl
  tried_rule Q c again interval (some e, s) final more = elim (Bool-cases (is_retryable (some e))) [
    | inl yes! ↦ rw yes! (more e refl yes!)
    | inr no! ↦ rw no! (final no!)
  ]

  -- With the context live and a final outcome, a round is its attempt.
  pub retry_round_live :
      (c : RetryConfig F) (left : ℕ) (interval : ℤ) (last : Option Error) (s : S)
      → done s ≡ none
      → is_retryable (attempt s).0 ≡ false
      → retry_loop ops env c left interval last s ≡ attempt s
  unfolding retry_loop
  retry_round_live c zero interval last s live final =
      rw live
        (tried_rule (λ q. q ≡ attempt s) c none interval (attempt s) (λ _. refl) (λ e _ h. cc))
  retry_round_live c (suc left) interval last s live final = rw live (
      tried_rule (λ q. q ≡ attempt s) c (some (retry_loop ops env c left)) interval (attempt s)
        (λ _. refl) (λ e _ h. cc))

  -- To show `Q left s` of the outcome of the loop with `left` retries from `s`: one premise for
  -- each way to end, and one that carries it from a round to the one before.
  module _ (Q : ℕ → S → Option Error × S → Type 0)
      (stopped : (left : ℕ) (e : Error) (last : Option Error) (s : S)
        → done s ≡ some e
        → Q left s (errors_join (some e ∷ last ∷ []), s))
      (final : (left : ℕ) (s : S) → is_retryable (attempt s).0 ≡ false → Q left s (attempt s))
      (last_one : (e : Error) (s : S) → (attempt s).0 ≡ some e → Q zero s (some e, (attempt s).1))
      (interrupted : (left : ℕ) (e : Error) (d : ℤ) (s : S)
        → (sleep d (attempt s).1).0 ≡ true
        → let s' = (sleep d (attempt s).1).1 in
          Q (suc left) s (errors_join (done s' ∷ some e ∷ []), s'))
      (onward : (left : ℕ) (d : ℤ) (s : S) (out : Option Error × S)
        → Q left (sleep d (attempt s).1).1 out
        → Q (suc left) s out) where
    pub retry_loop_rule :
        (c : RetryConfig F) (left : ℕ) (interval : ℤ) (last : Option Error) (s : S)
        → Q left s (retry_loop ops env c left interval last s)
    unfolding retry_loop backoff
    retry_loop_rule c zero interval last s = elim (Option-cases (done s)) [
      | inl live ↦ rw live (
          tried_rule (Q zero s) c none interval (attempt s) (final zero s)
            (λ e p h. last_one e s p))
      | inr (e, over) ↦ rw over (stopped zero e last s over)
    ]
    retry_loop_rule c (suc left) interval last s = elim (Option-cases (done s)) [
      | inl live ↦ rw live (
          tried_rule (Q (suc left) s) c (some (retry_loop ops env c left)) interval (attempt s)
            (final (suc left) s)
            (λ e p h.
              slept_rule (Q (suc left) s) c (retry_loop ops env c left) interval e
                (sleep (wait_of interval e) (attempt s).1) (interrupted left e _ s)
                (λ _. onward left (wait_of interval e) s _ (
                  retry_loop_rule c left (next_interval ops c interval) (some e)
                    (sleep (wait_of interval e) (attempt s).1).1))))
      | inr (e, over) ↦ rw over (stopped (suc left) e last s over)
    ]
