-- ===== src/Compose/Failover.antt =====
-- compose.go: in which order the failover sender asks, and when it stops.
use gsmail.Prelude.{
  ℕ, suc, ◌+◌, ◌≡◌, ◌≢◌, refl, ◌∙◌, ap, true, false, Option, none, some, List, [], ◌∷◌, ◌++◌, arith,
  length, Bool-cases, Option-cases, append_assoc, append-nil, All, inl, inr,
}
use gsmail.Errors.{Error, errorf, is_retryable, errors_join, non_retryable}
use gsmail.Compose.{Sender, failover_send, send_loop, attempted, joined_or_none, passed_over}

errors_join-nonempty :
    (errs : List (Option Error)) (e : Error) → errors_join (errs ++ some e ∷ []) ≢ none
unfolding errors_join
errors_join-nonempty [] e = λ p. cc
errors_join-nonempty (none ∷ errs) e = errors_join-nonempty errs e
errors_join-nonempty (some x ∷ errs) e = λ p. cc

module _ {S : Type 0} (on_fail : Option (ℕ → Error → S → S)) (done : S → Option Error) where
  -- The senders from number `i` on are all passed over: each is nil, or fails for now while the
  -- context is live. They take `s` to `t` and leave the errors `errs`.
  pub data Passed : ℕ → List (Option (Sender S)) → S → List (Option Error) → S → Type 0 where
    nobody : (i : ℕ) (s : S) → Passed i [] s [] s
    skipped :
        (i : ℕ) (xs : List (Option (Sender S))) (s t : S) (errs : List (Option Error))
        → Passed (suc i) xs s errs t
        → Passed i (none ∷ xs) s errs t
    failed_over :
        (i : ℕ) (x : Sender S) (xs : List (Option (Sender S))) (e : Error) (s s1 t : S)
        (errs : List (Option Error))
        → x.send s ≡ (some e, s1)
        → is_retryable (some e) ≡ true
        → done (passed_over on_fail i e s1) ≡ none
        → Passed (suc i) xs (passed_over on_fail i e s1) errs t
        → Passed i (some x ∷ xs) s (some (errorf e) ∷ errs) t

  send_loop-Passed :
      (ys : List (Option (Sender S))) (acc : List (Option Error)) {i : ℕ}
      {xs : List (Option (Sender S))} {s t : S} {errs : List (Option Error)}
      → Passed i xs s errs t
      → send_loop on_fail done i (xs ++ ys) acc s
        ≡ send_loop on_fail done (i + length xs) ys (acc ++ errs) t
  unfolding send_loop
  send_loop-Passed ys acc (nobody i s) =
      simp append-nil (ap (λ n. send_loop on_fail done n ys acc s) (omega arith))
  send_loop-Passed ys acc (skipped i xs s t errs p) =
      send_loop-Passed ys acc p
      ∙ ap (λ n. send_loop on_fail done n ys (acc ++ errs) t) (omega arith)
  send_loop-Passed ys acc (failed_over i x xs e s s1 t errs sent again live p) =
      rw (sent, again, live)
        (send_loop-Passed ys (acc ++ some (errorf e) ∷ []) p
          ∙ ap (λ z. send_loop on_fail done (suc i + length xs) ys z t)
              (append_assoc acc (some (errorf e) ∷ []) errs)
          ∙ ap (λ n. send_loop on_fail done n ys (acc ++ some (errorf e) ∷ errs) t) (omega arith))

  send-send_loop :
      (x : Option (Sender S)) (xs ys : List (Option (Sender S))) (s : S)
      → failover_send on_fail done (xs ++ x ∷ ys) s ≡ send_loop on_fail done 0 (xs ++ x ∷ ys) [] s
  unfolding failover_send
  send-send_loop x [] ys s = refl
  send-send_loop x (y ∷ xs) ys s = refl

  module _ {xs : List (Option (Sender S))} {s t : S} {errs : List (Option Error)}
      (p : Passed 0 xs s errs t) (x : Sender S) (ys : List (Option (Sender S))) where
    walked :
        failover_send on_fail done (xs ++ some x ∷ ys) s
        ≡ send_loop on_fail done (length xs) (some x ∷ ys) errs t
    walked =
        send-send_loop (some x) xs ys s
        ∙ send_loop-Passed (some x ∷ ys) [] p
        ∙ ap (λ n. send_loop on_fail done n (some x ∷ ys) errs t) (omega arith)

    -- Where each sender before it is nil or fails for now with the context live, a sender that
    -- succeeds ends the failover Send with success: no later sender is asked.
    pub failover_send-succeeds :
        (u : S)
        → x.send t ≡ (none, u)
        → failover_send on_fail done (xs ++ some x ∷ ys) s ≡ (none, u)
    failover_send-succeeds u sent = walked ∙ (unfold send_loop in rw sent refl)

    -- Where each sender before it is nil or fails for now with the context live, a sender that
    -- fails for good, or after whose failure the context is done, ends the failover Send: no later
    -- sender is asked, and the errors of all that were asked are joined, with that of the context.
    pub failover_send-stops :
        (e : Error) (u : S)
        → x.send t ≡ (some e, u)
        → let v = passed_over on_fail (length xs) e u in
          let asked = errs ++ some (errorf e) ∷ [] in
          (is_retryable (some e) ≡ false
            → failover_send on_fail done (xs ++ some x ∷ ys) s ≡ (errors_join asked, v))
          × ((c : Error)
              → is_retryable (some e) ≡ true
              → done v ≡ some c
              → failover_send on_fail done (xs ++ some x ∷ ys) s
                ≡ (errors_join (asked ++ some c ∷ []), v))
    failover_send-stops e u sent = (
      λ final. walked ∙ (unfold send_loop in rw (sent, final) refl),
      λ c again stop. walked ∙ (unfold send_loop in rw (sent, again, stop) refl),
    )

  -- one of the senders succeeds in one of the states that a call of Send can meet
  abbrev pub Fails : (Sender S → S → Option Error × S) → Option (Sender S) → Type 0
  Fails call none = Unit
  Fails call (some x) = (t : S) → (call x t).0 ≢ none

  attempted-Fails :
      (i : ℕ) (rest : List (Option Error) → S → Option Error × S) (errs : List (Option Error))
      (out : Option Error × S)
      → ((e : Error) (t : S) → (rest (errs ++ some e ∷ []) t).0 ≢ none)
      → out.0 ≢ none
      → (attempted on_fail done i rest errs out).0 ≢ none
  unfolding attempted
  attempted-Fails i rest errs (none, s) r h = absurd (h refl)
  attempted-Fails i rest errs (some e, s) r h = elim (Bool-cases (is_retryable (some e))) [
    | inl again ↦ elim (Option-cases (done (passed_over on_fail i e s))) [
      | inl live ↦ rw (again, live) (r (errorf e) _)
      | inr (c, stop) ↦ rw (again, stop) (errors_join-nonempty (errs ++ some (errorf e) ∷ []) c)
    ]
    | inr final ↦ rw final (errors_join-nonempty errs (errorf e))
  ]

  joined_or_none-nil : joined_or_none [] ≢ none
  unfolding non_retryable
  joined_or_none-nil = λ p. cc

  joined_or_none-nonempty :
      (errs : List (Option Error)) → errors_join errs ≢ none → joined_or_none errs ≢ none
  unfolding non_retryable
  joined_or_none-nonempty [] h = λ p. cc
  joined_or_none-nonempty (e ∷ errs) h = h

  send_loop-Fails :
      (i : ℕ) (xs : List (Option (Sender S))) (errs : List (Option Error)) (s : S)
      → joined_or_none errs ≢ none
      → All (Fails (λ x. x.send)) xs
      → (send_loop on_fail done i xs errs s).0 ≢ none
  unfolding send_loop
  send_loop-Fails i [] errs s a h = a
  send_loop-Fails i (none ∷ xs) errs s a h = send_loop-Fails (suc i) xs errs s a h.1
  send_loop-Fails i (some x ∷ xs) errs s a h =
      attempted-Fails i (send_loop on_fail done (suc i) xs) errs (x.send s)
        (λ e t.
          send_loop-Fails (suc i) xs _ t (joined_or_none-nonempty _ (errors_join-nonempty errs e))
            h.1)
        (h.0 s)

  -- If no sender succeeds in any state, the failover Send fails, with no senders at all too.
  pub failover_send-Fails :
      (xs : List (Option (Sender S))) (s : S)
      → All (Fails (λ x. x.send)) xs
      → (failover_send on_fail done xs s).0 ≢ none
  unfolding failover_send non_retryable
  failover_send-Fails [] s h = λ p. cc
  failover_send-Fails (x ∷ xs) s h = send_loop-Fails 0 (x ∷ xs) [] s joined_or_none-nil h
