-- ===== src/Middleware.antt =====
-- middleware.go: interceptors around senders and receivers, and the built-in ones.
mod Tests
pub mod Laws
use gsmail.Prelude.{Bool, true, false, Option, none, some, List, [], ◌∷◌}
use mathlib.Core.List.{reverse}
use gsmail.Errors.{Error, text, non_retryable}
use gsmail.Email.{Email}

-- How a call ends.
pub data Outcome : Type 0 where
  returned : Option Error → Outcome
  panicked : Outcome

-- Send with the context applied, over the state of the world.
abbrev pub Send : Type 0 → Type 0
Send S = Email → S → Outcome × S

abbrev pub SendInterceptor : Type 0 → Type 0
SendInterceptor S = Email → Send S → S → Outcome × S

-- A receiver is its three methods, whose types are left open.
pub record Receiver (R Q I : Type 0) : Type 0 where
  pub receive : R
  pub search : Q
  pub idle : I

pub record ReceiverInterceptors (R Q I : Type 0) : Type 0 where
  pub receive : Option (R → R)
  pub search : Option (Q → Q)
  pub idle : Option (I → I)

module _ {S : Type 0} where
  -- interceptedSender.Send
  abbrev pub intercepted : Option (SendInterceptor S) → Send S → Send S
  intercepted none s = s
  intercepted (some interceptor) s = λ email. interceptor email s

  -- the loop, over the interceptors from the last on
  unfoldable pub wrap_loop : List (Option (SendInterceptor S)) → Send S → Send S
  wrap_loop [] s = s
  wrap_loop (i ∷ interceptors) s = wrap_loop interceptors (intercepted i s)

  unfoldable pub wrap_sender : Send S → List (Option (SendInterceptor S)) → Send S
  unfolding wrap_loop
  wrap_sender s interceptors = wrap_loop (reverse interceptors) s

  -- A call of logFn, which says whether it panics; `out` is how the code that calls it would end.
  pub after_log : Outcome → Bool × S → Outcome × S
  after_log out (false, s) = (out, s)
  after_log out (true, s) = (panicked, s)

  -- LoggerInterceptor and VerboseLoggerInterceptor; `log` is the call of logFn, with the error
  logged : (Option Error → S → Bool × S) → Outcome × S → Outcome × S
  unfolding after_log
  logged log (returned err, s) = after_log (returned err) (log err s)
  logged log (panicked, s) = (panicked, s)

  unfoldable pub logger_interceptor : (Option Error → S → Bool × S) → SendInterceptor S
  unfolding logged
  logger_interceptor log email next s = logged log (next email s)

  -- the deferred function: a panic of logFn in it goes on to the caller
  pub recovered : Option (S → Bool × S) → Outcome × S → Outcome × S
  unfolding after_log
  recovered log (returned err, s) = (returned err, s)
  recovered none (panicked, s) = (returned (non_retryable (some (text []))), s)
  recovered (some log) (panicked, s) = after_log (returned (non_retryable (some (text [])))) (log s)

  unfoldable pub recovery_interceptor_with_logger : Option (S → Bool × S) → SendInterceptor S
  unfolding recovered
  recovery_interceptor_with_logger log email next s = recovered log (next email s)

  unfoldable pub recovery_interceptor : SendInterceptor S
  unfolding recovery_interceptor_with_logger
  recovery_interceptor = recovery_interceptor_with_logger none

abbrev pub applied {ℓ} : {A : Type ℓ} → Option (A → A) → A → A
applied none f = f
applied (some i) f = i f

module _ {R Q I : Type 0} where
  unfoldable pub wrap_receiver_loop : List (Option (R → R)) → Receiver R Q I → Receiver R Q I
  wrap_receiver_loop [] r = r
  wrap_receiver_loop (i ∷ interceptors) r =
      wrap_receiver_loop interceptors (record r { receive = applied i r.receive })

  unfoldable pub wrap_receiver : Receiver R Q I → List (Option (R → R)) → Receiver R Q I
  unfolding wrap_receiver_loop
  wrap_receiver r interceptors = wrap_receiver_loop (reverse interceptors) r

  unfoldable pub wrap_receiver_with : Receiver R Q I → ReceiverInterceptors R Q I → Receiver R Q I
  wrap_receiver_with r i = record {
    receive = applied i.receive r.receive;
    search = applied i.search r.search;
    idle = applied i.idle r.idle;
  }
