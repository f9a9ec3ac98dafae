-- ===== src/Unsubscribe/Tests.antt =====
-- unsubscribe.go: the theorem on unsubscribe headers at concrete targets.
use gsmail.Prelude.{◌≡◌, refl, true, ◌==◌, Option, some, List, [], ◌∷◌}
use gsmail.Prelude.Bytes.{Bytes, bytes_eq, codes}
use gsmail.Text.Utf8.{runes_after, encode_rune}
use gsmail.Text.Search.{Unicode, to_lower, equal_fold, trim_space, trim_last}
use gsmail.Header.{sanitize_header_value}
use gsmail.Email.{empty_email, set_header}
use gsmail.Address.{join_addresses}
use gsmail.Unsubscribe.{
  set_one_click_unsubscribe, has_one_click_unsubscribe, build_list_unsubscribe, check_target,
  target_of,
}
use gsmail.Unsubscribe.Laws.{Outcome, set_one_click_unsubscribe-Outcome}

abbrev ascii : Unicode
ascii = record { lower = λ r. r; upper = λ r. r; same_fold = λ r t. r == t }

-- every target is an https URL
abbrev https_only : Bytes → Option Bytes
https_only t = some (codes "HTTPS")

abbrev targets : List Bytes
targets = codes "<https://x.io/u>" ∷ []

-- A message that had no headers has the pair after it.
pair_is_found :
    has_one_click_unsubscribe ascii
      (set_one_click_unsubscribe ascii https_only targets empty_email).1
    ≡ true
unfolding has_one_click_unsubscribe set_one_click_unsubscribe build_list_unsubscribe check_target
    target_of sanitize_header_value runes_after encode_rune to_lower equal_fold trim_space trim_last
    set_header join_addresses bytes_eq
pair_is_found = refl

set_one_click_unsubscribe-Outcome_example :
    Outcome ascii https_only targets empty_email
      (set_one_click_unsubscribe ascii https_only targets empty_email)
set_one_click_unsubscribe-Outcome_example =
    set_one_click_unsubscribe-Outcome ascii https_only targets empty_email
