-- ===== src/Headers.antt =====
-- utils.go: the header fields that a caller supplies.
pub mod Order
use gsmail.Prelude.{
  ℕ, Bool, true, false, ◌&&◌, ◌||◌, Option, none, some, List, [], ◌∷◌, ltb, ◌==◌, map,
  if◌then◌else◌,
}
use gsmail.Prelude.Bytes.{Bytes, bytes_eq, codes}
use gsmail.Errors.{Error, text, non_retryable}
use gsmail.Text.Search.{Unicode, to_lower}
use gsmail.Header.{is_valid_header_name, encode_header}
use gsmail.Email.{assign}
use gsmail.Identity.{field}

unfoldable pub one_of : Bytes → List Bytes → Bool
one_of name [] = false
one_of name (n ∷ names) = bytes_eq n name || one_of name names

abbrev pub reserved_headers : List Bytes
reserved_headers =
    codes "from"
    ∷ codes "to"
    ∷ codes "cc"
    ∷ codes "bcc"
    ∷ codes "reply-to"
    ∷ codes "subject"
    ∷ codes "mime-version"
    ∷ codes "content-type"
    ∷ codes "content-transfer-encoding"
    ∷ []

abbrev pub trace_headers : List Bytes
trace_headers =
    codes "received"
    ∷ codes "return-path"
    ∷ codes "dkim-signature"
    ∷ codes "domainkey-signature"
    ∷ codes "authentication-results"
    ∷ codes "arc-seal"
    ∷ codes "arc-message-signature"
    ∷ codes "arc-authentication-results"
    ∷ codes "delivered-to"
    ∷ codes "x-received"
    ∷ []

-- the order of strings, by bytes
unfoldable pub before : Bytes → Bytes → Bool
before [] t = true
before (a ∷ s) [] = false
before (a ∷ s) (b ∷ t) = ltb a b || (a == b && before s t)

unfoldable pub insert_name : Bytes → List Bytes → List Bytes
insert_name n [] = n ∷ []
insert_name n (m ∷ names) =
    let rest = insert_name n names in if before n m then n ∷ m ∷ names else m ∷ rest

-- sort.Strings
unfoldable pub sort_strings : List Bytes → List Bytes
sort_strings [] = []
sort_strings (n ∷ names) = insert_name n (sort_strings names)

unfoldable pub sorted_header_names : List (Bytes × Bytes) → List Bytes
unfolding sort_strings
sorted_header_names h = sort_strings (map (λ f. f.0) h)

-- h[name]
abbrev pub value_of : Option Bytes → Bytes
value_of (some v) = v
value_of none = []

-- The outcome of CustomHeaders: the map, which is nil where it is empty, or an error.
pub data Custom : Type 0 where
  custom : List (Bytes × Bytes) → Custom
  illegal_name : Option Error → Custom

unfoldable pub is_reserved : Unicode → Bytes → Bool
unfolding one_of
is_reserved u name =
    one_of (to_lower u name) reserved_headers || one_of (to_lower u name) trace_headers

module _ (u : Unicode) (q_encode : Bytes → Bytes) where
  -- the loop of CustomHeaders over the names, with the map so far; `look` is the map of the caller
  unfoldable pub custom_from : (Bytes → Bytes) → List Bytes → List (Bytes × Bytes) → Custom
  unfolding is_reserved
  custom_from look [] out = custom out
  custom_from look (name ∷ names) out =
      let v = encode_header q_encode (look name) in
      let same = custom_from look names out in
      let more = custom_from look names (assign name v out) in
      if is_reserved u name
      then same
      else if is_valid_header_name name
      then (if bytes_eq v [] then same else more)
      else illegal_name (non_retryable (some (text [])))

  unfoldable pub custom_headers : List (Bytes × Bytes) → Custom
  unfolding custom_from sorted_header_names
  custom_headers h = custom_from (λ name. value_of (field name h)) (sorted_header_names h) []
