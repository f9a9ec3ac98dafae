-- ===== src/Middleware/Tests.antt =====
-- middleware.go: the theorems on interceptors at concrete senders.
use gsmail.Prelude.{ℕ, suc, Bool, true, Option, some, [], ◌∷◌}
use gsmail.Email.{empty_email}
use gsmail.Middleware.{
  panicked, Send, SendInterceptor, wrap_sender, recovery_interceptor_with_logger,
}
use gsmail.Middleware.Laws.{Recovers, recovery-Recovers}

-- the state counts the calls
abbrev panicking : Send ℕ
panicking email n = (panicked, suc n)

abbrev counting : Option (SendInterceptor ℕ)
counting = some (λ email next n. next email (suc n))

-- a logger that panics, having counted its call
abbrev bad_logger : Option (ℕ → Bool × ℕ)
bad_logger = some (λ n. (true, suc n))

recovery-Recovers_example :
    Recovers bad_logger (wrap_sender panicking (counting ∷ []) empty_email 0) (
      wrap_sender panicking
        (some (recovery_interceptor_with_logger bad_logger) ∷ counting ∷ [])
        empty_email
        0)
recovery-Recovers_example = recovery-Recovers bad_logger panicking (counting ∷ []) empty_email 0
