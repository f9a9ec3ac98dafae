-- ===== src/Unsubscribe.antt =====
-- unsubscribe.go: the List-Unsubscribe header pair. url.Parse of the standard library is the parameter
-- `parse_scheme`: the scheme of a URL, or none for an error.
mod Tests
pub mod Laws
use gsmail.Prelude.{
  ℕ, Bool, true, false, not, ◌&&◌, ◌||◌, Option, none, some, List, [], ◌∷◌, ◌++◌, if◌then◌else◌,
}
use gsmail.Prelude.Bytes.{Bytes, bytes_eq, codes}
use gsmail.Errors.{
  Error, sentinel, text, errorf, err_no_unsubscribe_target, err_unsafe_unsubscribe_scheme,
  err_no_https_unsubscribe, non_retryable,
}
use gsmail.Text.Search.{Unicode, to_lower, equal_fold, trim_space, trim_first, trim_last}
use gsmail.Header.{sanitize_header_value}
use gsmail.Email.{Email, set_header}
use gsmail.Address.{join_addresses}

-- The outcome for one target: whether it is https, or the error.
pub data Checked : Type 0 where
  accepted : Bool → Checked
  refused : Option Error → Checked

-- The outcome of the loop: the parts and whether one is https, or the error.
pub data Parts : Type 0 where
  parts : List Bytes → Bool → Parts
  no_parts : Option Error → Parts

abbrev pub list_unsubscribe : Bytes
list_unsubscribe = codes "List-Unsubscribe"

abbrev pub list_unsubscribe_post : Bytes
list_unsubscribe_post = codes "List-Unsubscribe-Post"

abbrev pub list_unsubscribe_post_value : Bytes
list_unsubscribe_post_value = codes "List-Unsubscribe=One-Click"

unfoldable pub target_of : Bytes → Bytes
target_of raw = trim_last b'>' (trim_first b'<' (trim_space raw))

-- the check for an illegal character
unfoldable pub check_legal : Bytes → Bool → Checked
check_legal t https =
    if bytes_eq t (sanitize_header_value t)
    then accepted https
    else refused (non_retryable (some (text [])))

abbrev pub bracketed : Bytes → Bytes
bracketed t = b'<' ∷ (t ++ b'>' ∷ [])

abbrev pub with_part : Bytes → Checked → Parts → Parts
with_part t (refused e) rest = no_parts e
with_part t (accepted https) (no_parts e) = no_parts e
with_part t (accepted https) (parts ps later) = parts (bracketed t ∷ ps) (https || later)

module _ (u : Unicode) (parse_scheme : Bytes → Option Bytes) where
  unfoldable pub check_scheme : Bytes → Option Bytes → Checked
  unfolding check_legal
  check_scheme t none = refused (non_retryable (some (errorf (text []))))
  check_scheme t (some scheme) =
      if bytes_eq (to_lower u scheme) (codes "https")
      then check_legal t true
      else if bytes_eq (to_lower u scheme) (codes "mailto")
      then check_legal t false
      else refused (non_retryable (some (errorf (sentinel err_unsafe_unsubscribe_scheme))))

  unfoldable pub check_target : Bytes → Checked
  unfolding check_scheme
  check_target [] = refused (non_retryable (some (sentinel err_no_unsubscribe_target)))
  check_target (c ∷ t) = check_scheme (c ∷ t) (parse_scheme (c ∷ t))

  unfoldable pub parts_of : List Bytes → Parts
  parts_of [] = parts [] false
  parts_of (raw ∷ targets) =
      with_part (target_of raw) (check_target (target_of raw)) (parts_of targets)

  -- the parts of the value, which are joined by ", "
  unfoldable pub build_list_unsubscribe : List Bytes → Parts
  unfolding parts_of
  build_list_unsubscribe [] = no_parts (non_retryable (some (sentinel err_no_unsubscribe_target)))
  build_list_unsubscribe (t ∷ targets) = parts_of (t ∷ targets)

  pub set_list : Email → Parts → Option Error × Email
  unfolding join_addresses
  set_list e (no_parts err) = (err, e)
  set_list e (parts ps https) = (none, set_header list_unsubscribe (join_addresses ps) e)

  unfoldable pub set_list_unsubscribe : List Bytes → Email → Option Error × Email
  unfolding set_list
  set_list_unsubscribe targets e = set_list e (build_list_unsubscribe targets)

  pub set_pair : Email → Parts → Option Error × Email
  set_pair e (no_parts err) = (err, e)
  set_pair e (parts ps false) = (non_retryable (some (sentinel err_no_https_unsubscribe)), e)
  set_pair e (parts ps true) = (
    none,
    set_header list_unsubscribe_post list_unsubscribe_post_value
        (set_header list_unsubscribe (join_addresses ps) e),
  )

  unfoldable pub set_one_click_unsubscribe : List Bytes → Email → Option Error × Email
  unfolding set_pair
  set_one_click_unsubscribe targets e = set_pair e (build_list_unsubscribe targets)

-- The loop of HasOneClickUnsubscribe over the fields still to come, in the order of the range loop.
unfoldable pub pair_of : Unicode → List (Bytes × Bytes) → Bytes → Bytes → Bytes × Bytes
pair_of u [] unsub post = (unsub, post)
pair_of u ((k, v) ∷ m) unsub post =
    let name = to_lower u k in
    let first = bytes_eq name (codes "list-unsubscribe") in
    let second = bytes_eq name (codes "list-unsubscribe-post") in
    pair_of u m (if first then v else unsub) (if second then v else post)

unfoldable pub has_one_click_unsubscribe : Unicode → Email → Bool
unfolding pair_of
has_one_click_unsubscribe u e =
    let pair = pair_of u e.headers [] [] in
    not (bytes_eq pair.0 []) && equal_fold u (trim_space pair.1) list_unsubscribe_post_value

unfoldable pub require_one_click_unsubscribe :
    Unicode → Email → (Email → Option Error) → Option Error
unfolding has_one_click_unsubscribe
require_one_click_unsubscribe u e next =
    if has_one_click_unsubscribe u e
    then next e
    else non_retryable (some (errorf (sentinel err_no_https_unsubscribe)))
