-- ===== src/Compose/Tests.antt =====
-- compose.go: the theorems on the failover sender and the token source at concrete senders.
use gsmail.Prelude.{ℕ, suc, ◌≡◌, refl, true, false, Option, none, some, List, [], ◌∷◌, ◌++◌}
use gsmail.Prelude.Int.{pos}
use gsmail.Prelude.Bytes.{bytes_eq, codes}
use gsmail.Errors.{
  Error, http_error, canceled, errorf, non_retryable_error, is_retryable, errors_join, errors_is,
  errors_as, http_retryable,
}
use gsmail.Compose.{Sender, failover_send, CachedToken, Refreshed, is_fresh}
use gsmail.Compose.Failover.{Passed, nobody, skipped, failed_over, failover_send-stops}

abbrev unavailable : Error
unavailable = http_error (record { provider = []; status_code = 503; body = []; delay = pos 0 })

abbrev rejected : Error
rejected = non_retryable_error canceled

-- The state counts the calls.
abbrev sender : Option Error → Sender ℕ
sender outcome = record { send = λ n. (outcome, suc n); ping = λ n. (outcome, n) }

abbrev live : ℕ → Option Error
live n = none

unavailable-is_retryable :
    (is_retryable (some unavailable) ≡ true) × (is_retryable (some rejected) ≡ false)
unfolding is_retryable errors_is errors_as http_retryable
unavailable-is_retryable = (refl, refl)

abbrev first_two : List (Option (Sender ℕ))
first_two = none ∷ some (sender (some unavailable)) ∷ []

passed : Passed none live 0 first_two 0 (some (errorf unavailable) ∷ []) 1
passed = skipped 0 _ 0 1 _ (
    failed_over 1 (sender (some unavailable)) [] unavailable 0 1 1 [] refl
      unavailable-is_retryable.0 refl (nobody 2 1))

failover_send-stops_example :
    (is_retryable (some rejected) ≡ false
      → failover_send none live (first_two ++ some (sender (some rejected)) ∷ []) 0
        ≡ (errors_join (some (errorf unavailable) ∷ some (errorf rejected) ∷ []), 2))
    × ((c : Error)
        → is_retryable (some rejected) ≡ true
        → live 2 ≡ some c
        → failover_send none live (first_two ++ some (sender (some rejected)) ∷ []) 0
          ≡ (errors_join (some (errorf unavailable) ∷ some (errorf rejected) ∷ some c ∷ []), 2))
failover_send-stops_example =
    failover_send-stops none live passed (sender (some rejected)) [] rejected 2 refl

abbrev cached : CachedToken
cached = record { token = codes "t"; expiry = pos 100 }

abbrev refresh : ℕ → Refreshed × ℕ
refresh n = (record { token = codes "u"; expiry = pos 200; err = none }, suc n)

fresh_at : (is_fresh (pos 10) cached (pos 5) ≡ true) × (is_fresh (pos 10) cached (pos 89) ≡ true)
unfolding is_fresh bytes_eq
fresh_at = (refl, refl)
