-- ===== src/Middleware/Laws.antt =====
-- middleware.go: the order of interceptors, and panics.
use gsmail.Prelude.{
  ◌≡◌, refl, ap, ◌∙◌, ◌⊎◌, inl, inr, Bool, true, false, Option, none, some, List, [], ◌∷◌, ◌++◌,
}
use mathlib.Core.List.{reverse, reverse-cons}
use gsmail.Errors.{
  Error, is_retryable, non_retryable, non_retryable_error, text, errors_is, errors_as,
}
use gsmail.Email.{Email}
use gsmail.Middleware.{
  Outcome, returned, panicked, Send, SendInterceptor, intercepted, wrap_loop, wrap_sender,
  after_log, recovered, recovery_interceptor_with_logger,
}

module _ {S : Type 0} where
  wrap_loop-append :
      (xs ys : List (Option (SendInterceptor S))) (s : Send S)
      → wrap_loop (xs ++ ys) s ≡ wrap_loop ys (wrap_loop xs s)
  unfolding wrap_loop
  wrap_loop-append [] ys s = refl
  wrap_loop-append (i ∷ xs) ys s = wrap_loop-append xs ys (intercepted i s)

  -- The first interceptor is the outermost: it is called with the sender that the others wrap, and
  -- a nil one changes nothing.
  pub wrap_sender-cons :
      (s : Send S) (i : Option (SendInterceptor S))
      (interceptors : List (Option (SendInterceptor S)))
      → wrap_sender s (i ∷ interceptors) ≡ intercepted i (wrap_sender s interceptors)
  unfolding wrap_sender
  wrap_sender-cons s i interceptors =
      ap (λ is. wrap_loop is s) (reverse-cons i interceptors)
      ∙ wrap_loop-append (reverse interceptors) (i ∷ []) s
      ∙ (unfold wrap_loop in refl)

  abbrev pub LogPanics : Option (S → Bool × S) → S → Type 0
  LogPanics none w = ⊥
  LogPanics (some log) w = (log w).0 ≡ true

  -- how a call ends behind the recovery interceptor, where what it wraps ends with `inner`
  abbrev pub Recovers : Option (S → Bool × S) → (inner out : Outcome × S) → Type 0
  Recovers log inner out =
      ((err : Option Error) × (inner.0 ≡ returned err) × (out ≡ inner))
      ⊎ ((e : Error) × (inner.0 ≡ panicked)
          × (out.0 ≡ returned (some e))
          × (is_retryable (some e) ≡ false))
      ⊎ ((inner.0 ≡ panicked) × LogPanics log inner.1 × (out.0 ≡ panicked))

  after_log-Recovers :
      (log : S → Bool × S) (w : S) (r : Bool × S)
      → log w ≡ r
      → Recovers (some log) (panicked, w) (after_log (returned (non_retryable (some (text [])))) r)
  unfolding after_log non_retryable is_retryable errors_is errors_as
  after_log-Recovers log w (false, w') e =
      inr (inl (non_retryable_error (text []), refl, refl, refl))
  after_log-Recovers log w (true, w') e = inr (inr (refl, ap (λ x. x.0) e, refl))

  recovered-Recovers :
      (log : Option (S → Bool × S)) (inner : Outcome × S) → Recovers log inner (recovered log inner)
  unfolding recovered non_retryable is_retryable errors_is errors_as
  recovered-Recovers log (returned err, w) = inl (err, refl, refl)
  recovered-Recovers none (panicked, w) =
      inr (inl (non_retryable_error (text []), refl, refl, refl))
  recovered-Recovers (some log) (panicked, w) = after_log-Recovers log w (log w) refl

  -- With the recovery interceptor outermost a send ends as the wrapped sender does where that
  -- returns; where that panics, it returns an error that is not retried, or, where the logger is
  -- given and panics itself, panics.
  pub recovery-Recovers :
      (log : Option (S → Bool × S)) (s : Send S) (interceptors : List (Option (SendInterceptor S)))
      (email : Email) (w : S)
      → Recovers log
          (wrap_sender s interceptors email w)
          (wrap_sender s (some (recovery_interceptor_with_logger log) ∷ interceptors) email w)
  unfolding recovery_interceptor_with_logger
  recovery-Recovers log s interceptors email w =
      rw (wrap_sender-cons s (some (recovery_interceptor_with_logger log)) interceptors)
        (recovered-Recovers log (wrap_sender s interceptors email w))
