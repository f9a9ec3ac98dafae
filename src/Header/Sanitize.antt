-- ===== src/Header/Sanitize.antt =====
-- utils.go: what the sanitisers of header values leave.
use gsmail.Prelude.{
  ℕ, ◌≤◌, ◌≡◌, ◌≢◌, refl, ◌↔◌, ◌⊎◌, inl, inr, Bool, true, false, List, [], ◌∷◌, arith, All,
  All-append, All-map, Bool-cases,
}
use mathlib.Core.Path.{subst}
use gsmail.Prelude.{if◌then◌else◌}
use gsmail.Prelude.Bytes.{Bytes, bytes_eq}
use gsmail.Text.Utf8.{runes, encode_rune}
use gsmail.Text.Utf8.Laws.{All-runes_after, All-bytes, All-encode_rune}
use gsmail.Header.{
  any, is_illegal_header_rune, write_legal, sanitize_header_value, is_plain_ascii, encode_header,
  valid_name_bytes, is_valid_header_name,
}

-- the tab, and what is neither a control character of ASCII nor DEL
abbrev pub IsLegal : ℕ → Type 0
IsLegal c = ((c ≡ 9) ⊎ (32 ≤ c)) × (c ≢ 127)

is_illegal_header_rune_iff : (c : ℕ) → (is_illegal_header_rune c ≡ false) ↔ IsLegal c
unfolding is_illegal_header_rune
is_illegal_header_rune_iff c = ground arith

abbrev pub IsPrintable : ℕ → Type 0
IsPrintable c = (0x20 ≤ c) × (c ≤ 0x7e)

high-IsLegal : (r : ℕ) → 0x80 ≤ r → IsLegal r
high-IsLegal r h = ground arith

pub any-All : (f : ℕ → Bool) (rs : List ℕ) → any f rs ≡ false → All (λ r. f r ≡ false) rs
unfolding any
any-All f [] h = tt
any-All f (r ∷ rs) h = ground (arith, any-All f rs)

pub All-any : (f : ℕ → Bool) (rs : List ℕ) → All (λ r. f r ≡ false) rs → any f rs ≡ false
unfolding any
All-any f [] h = refl
All-any f (r ∷ rs) h = ground (arith, All-any f rs h.1)

write_legal-IsLegal : (rs : List ℕ) → All IsLegal (write_legal rs)
unfolding write_legal
write_legal-IsLegal [] = tt
write_legal-IsLegal (r ∷ rs) = elim (Bool-cases (is_illegal_header_rune r)) [
  | inl bad ↦ rw bad (write_legal-IsLegal rs)
  | inr good ↦ rw good (
      All-append IsLegal (encode_rune r) (write_legal rs)
        (All-encode_rune IsLegal high-IsLegal r ((is_illegal_header_rune_iff r).0 good))
        (write_legal-IsLegal rs))
]

pub any-IsLegal : (s : Bytes) → any is_illegal_header_rune (runes s) ≡ false → All IsLegal s
any-IsLegal s good =
    All-bytes IsLegal high-IsLegal 0 s tt
      (All-map (λ r. (is_illegal_header_rune_iff r).0) (runes s) (any-All _ (runes s) good))

-- Whatever the input, valid UTF-8 or not, no control character but the tab is in the result of
-- SanitizeHeaderValue.
pub sanitize_header_value-IsLegal : (s : Bytes) → All IsLegal (sanitize_header_value s)
unfolding sanitize_header_value
sanitize_header_value-IsLegal s = elim (Bool-cases (any is_illegal_header_rune (runes s))) [
  | inl bad ↦ rw bad (write_legal-IsLegal (runes s))
  | inr good ↦ rw good (any-IsLegal s good)
]

-- SanitizeHeaderValue keeps a value as it is exactly where it has no illegal character.
pub sanitize_header_value_iff : (s : Bytes) → (sanitize_header_value s ≡ s) ↔ All IsLegal s
unfolding sanitize_header_value
sanitize_header_value_iff s = (
  λ e. subst (All IsLegal) e (sanitize_header_value-IsLegal s),
  λ h. rw (
      All-any _ (runes s) (
        All-map (λ r. (is_illegal_header_rune_iff r).1) (runes s)
          (All-runes_after IsLegal high-IsLegal 0 s h))),
)

pub is_plain_ascii_iff : (s : Bytes) → (is_plain_ascii s ≡ true) ↔ All IsPrintable s
unfolding is_plain_ascii
is_plain_ascii_iff [] = (λ _. tt, λ _. refl)
is_plain_ascii_iff (c ∷ s) = ground (arith, is_plain_ascii_iff s)

-- An encoded header value has no control character but the tab, if the standard library's Q-encoding
-- brings none into a text that has none.
pub encode_header-IsLegal :
    (q_encode : Bytes → Bytes) (value : Bytes)
    → ((s : Bytes) → All IsLegal s → All IsLegal (q_encode s))
    → All IsLegal (encode_header q_encode value)
unfolding encode_header
encode_header-IsLegal q_encode value kept =
    by_cases (sanitize_header_value value) (sanitize_header_value-IsLegal value)
  where
    by_cases :
        (s : Bytes)
        → All IsLegal s
        → All IsLegal (if bytes_eq s [] then [] else if is_plain_ascii s then s else q_encode s)
    by_cases s legal = elim (Bool-cases (bytes_eq s [])) [
      | inl e ↦ rw e tt
      | inr e ↦ rw e (elim (Bool-cases (is_plain_ascii s)) [
        | inl plain ↦ rw plain legal
        | inr odd ↦ rw odd (kept s legal)
      ])
    ]

abbrev pub IsNameByte : ℕ → Type 0
IsNameByte c = (0x21 ≤ c) × (c ≤ 0x7e) × (c ≢ b':')

valid_name_bytes_iff : (s : Bytes) → (valid_name_bytes s ≡ true) ↔ All IsNameByte s
unfolding valid_name_bytes
valid_name_bytes_iff [] = (λ _. tt, λ _. refl)
valid_name_bytes_iff (c ∷ s) = ground (arith, valid_name_bytes_iff s)

-- A header name is legal exactly where it has a character, and each is printable, not a space and
-- not a colon.
pub is_valid_header_name_iff :
    (s : Bytes) → (is_valid_header_name s ≡ true) ↔ ((s ≢ []) × All IsNameByte s)
unfolding is_valid_header_name
is_valid_header_name_iff [] = (λ e. cc, λ h. absurd (h.0 refl))
is_valid_header_name_iff (c ∷ s) =
    (λ e. (λ p. cc, (valid_name_bytes_iff (c ∷ s)).0 e), λ h. (valid_name_bytes_iff (c ∷ s)).1 h.1)
