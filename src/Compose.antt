-- ===== src/Compose.antt =====
-- compose.go: the failover sender, the rate-limited sender and the caching token source.
mod Tests
pub mod Failover
pub mod Token
use gsmail.Prelude.{
  ℕ, zero, suc, Bool, true, false, ◌&&◌, not, Option, none, some, List, [], ◌∷◌, ◌++◌,
  if◌then◌else◌,
}
use gsmail.Prelude.Int.{ℤ, pos, ◌-ℤ◌, ltb_ℤ, leb_ℤ}
use gsmail.Prelude.Bytes.{Bytes, bytes_eq}
use gsmail.Errors.{
  Error, sentinel, text, errorf, err_no_senders, non_retryable, is_retryable, errors_join,
}

-- A Sender with the context and the message of one call applied, over the state of the world.
pub record Sender (S : Type 0) : Type 0 where
  pub send : S → Option Error × S
  pub ping : S → Option Error × S

abbrev pub no_senders : Option Error
no_senders = non_retryable (some (sentinel err_no_senders))

-- What the loop of Send ends with.
abbrev pub joined_or_none : List (Option Error) → Option Error
joined_or_none [] = no_senders
joined_or_none (e ∷ errs) = errors_join (e ∷ errs)

-- the call of the callback, where there is one
abbrev pub passed_over {ℓ} : {S : Type ℓ} → Option (ℕ → Error → S → S) → ℕ → Error → S → S
passed_over none i e s = s
passed_over (some f) i e s = f i e s

-- `on_fail` is the callback, `done` is ctx.Err().
module _ {S : Type 0} (on_fail : Option (ℕ → Error → S → S)) (done : S → Option Error) where
  -- the loop from the next sender on
  abbrev pub Rest : Type 0
  Rest = List (Option Error) → S → Option Error × S

  walk_on : Rest → List (Option Error) → S → Option Error → Option Error × S
  walk_on rest errs s none = rest errs s
  walk_on rest errs s (some e) = (errors_join (errs ++ some e ∷ []), s)

  -- the body of the loop, from the result of the sender `i`
  pub attempted : ℕ → Rest → List (Option Error) → Option Error × S → Option Error × S
  unfolding walk_on
  attempted i rest errs (none, s) = (none, s)
  attempted i rest errs (some e, s) =
      let errs' = errs ++ some (errorf e) ∷ [] in
      let s' = passed_over on_fail i e s in
      if is_retryable (some e) then walk_on rest errs' s' (done s') else (errors_join errs', s')

  pub send_loop : ℕ → List (Option (Sender S)) → List (Option Error) → S → Option Error × S
  unfolding attempted
  send_loop i [] errs s = (joined_or_none errs, s)
  send_loop i (none ∷ senders) errs s = send_loop (suc i) senders errs s
  send_loop i (some x ∷ senders) errs s = attempted i (send_loop (suc i) senders) errs (x.send s)

  unfoldable pub failover_send : List (Option (Sender S)) → S → Option Error × S
  unfolding send_loop
  failover_send [] s = (no_senders, s)
  failover_send (x ∷ senders) s = send_loop 0 (x ∷ senders) [] s

module _ {S : Type 0} where
  pinged :
      (List (Option Error) → S → Option Error × S)
      → List (Option Error)
      → Option Error × S
      → Option Error × S
  pinged rest errs (none, s) = (none, s)
  pinged rest errs (some e, s) = rest (errs ++ some (errorf e) ∷ []) s

  pub ping_loop : List (Option (Sender S)) → List (Option Error) → S → Option Error × S
  unfolding pinged
  ping_loop [] errs s = (errors_join errs, s)
  ping_loop (none ∷ senders) errs s = ping_loop senders errs s
  ping_loop (some x ∷ senders) errs s = pinged (ping_loop senders) errs (x.ping s)

  unfoldable pub failover_ping : List (Option (Sender S)) → S → Option Error × S
  unfolding ping_loop
  failover_ping [] s = (no_senders, s)
  failover_ping (x ∷ senders) s = ping_loop (x ∷ senders) [] s

  limited : Sender S → Option Error × S → Option Error × S
  limited x (none, s) = x.send s
  limited x (some e, s) = (some (errorf e), s)

  -- RateLimitedSender, with the limiter's Wait
  unfoldable pub rate_limited_sender : Sender S → Option (S → Option Error × S) → Sender S
  unfolding limited
  rate_limited_sender x none = x
  rate_limited_sender x (some wait) = record x { send = λ s. limited x (wait s) }

-- What a cachingTokenSource keeps; times and durations are nanoseconds.
pub record CachedToken : Type 0 where
  pub token : Bytes
  pub expiry : ℤ

pub record Refreshed : Type 0 where
  pub token : Bytes
  pub expiry : ℤ
  pub err : Option Error

abbrev pub leeway_of : ℤ → ℤ
leeway_of leeway = if leb_ℤ leeway (pos 0) then pos 60000000000 else leeway

abbrev pub no_token : Option Error
no_token = non_retryable (some (text []))

unfoldable pub is_fresh : ℤ → CachedToken → ℤ → Bool
is_fresh leeway c now = not (bytes_eq c.token []) && ltb_ℤ now (c.expiry -ℤ leeway_of leeway)

module _ {S : Type 0} (refresh : Option (S → Refreshed × S)) (leeway : ℤ) where
  abbrev Result : Type 0
  Result = (Bytes × Option Error) × CachedToken × S

  renewed : CachedToken → Refreshed × S → Result
  renewed c (r, s) = elim r.err [
    | some e ↦ (([], some e), c, s)
    | none ↦
        if bytes_eq r.token []
        then (([], no_token), c, s)
        else ((r.token, none), record { token = r.token; expiry = r.expiry }, s)
  ]

  fetched : Option (S → Refreshed × S) → CachedToken → ℤ → S → Result
  unfolding renewed
  fetched none c now s = (([], no_token), c, s)
  fetched (some f) c now s =
      if is_fresh leeway c now then ((c.token, none), c, s) else renewed c (f s)

  -- Token, at the time `now`; the lock makes the calls one after the other.
  unfoldable pub token : CachedToken → ℤ → S → Result
  unfolding fetched
  token c now s = fetched refresh c now s
