-- ===== src/Header/Quote.antt =====
-- utils.go: the file name parameters of Content-Disposition, and readers for them.
use gsmail.Prelude.{
  ℕ, ◌+◌, ◌-◌, ◌*◌, ◌/◌, ◌%◌, ◌<◌, ◌≡◌, refl, sym, ap, Bool, true, false, Option, none, some, [],
  ◌∷◌, ◌++◌, arith, All, Bool-cases, inl, inr, leb, ◌==◌, if◌then◌else◌,
}
use gsmail.Prelude.Bytes.{Bytes}
use gsmail.Text.Utf8.{runes}
use gsmail.Text.Utf8.Laws.{All-bytes}
use gsmail.Header.{
  any, needs_escape, escape_quoted, quote_filename, is_attr_char, hex_digit, rfc2231_escape,
}
use gsmail.Header.Sanitize.{IsPrintable, any-All}

abbrev IsPlain : ℕ → Type 0
IsPlain c = needs_escape c ≡ false

escape_quoted-plain : (s : Bytes) → All IsPlain s → escape_quoted s ≡ s
unfolding escape_quoted
escape_quoted-plain [] h = refl
escape_quoted-plain (c ∷ s) h = ground (arith, escape_quoted-plain s h.1)

-- The early return of quoteFilename changes nothing.
pub quote-escape : (s : Bytes) → quote_filename s ≡ escape_quoted s
unfolding quote_filename
quote-escape s = elim (Bool-cases (any needs_escape (runes s))) [
  | inl found ↦ rw found
  | inr clean ↦ rw clean (
      sym (
        escape_quoted-plain s
          (All-bytes IsPlain (λ r h. ground arith) 0 s tt (any-All _ (runes s) clean))))
]

-- What a receiver reads of an RFC 5322 quoted-string after its opening quote: the text, and what
-- follows the closing quote.
pub read_quoted : Bytes → Bool → Option (Bytes × Bytes)
read_quoted [] escaped = none
read_quoted (c ∷ s) true = elim (read_quoted s false) [
  | none ↦ none
  | some (t, rest) ↦ some (c ∷ t, rest)
]
read_quoted (c ∷ s) false =
    let escaped = read_quoted s true in
    let plain : Option (Bytes × Bytes) = elim (read_quoted s false) [
      | none ↦ none
      | some (t, rest) ↦ some (c ∷ t, rest)
    ] in
    if c == b'"' then some ([], s) else if c == b'\\' then escaped else plain

read_quoted-escape :
    (s rest : Bytes) → read_quoted (escape_quoted s ++ b'"' ∷ rest) false ≡ some (s, rest)
unfolding read_quoted escape_quoted
read_quoted-escape [] rest = refl
read_quoted-escape (c ∷ s) rest = ground (arith, read_quoted-escape s rest)

-- A quoted file name ends where its closing quote stands and is read back as it was: no name can
-- break out of the quotes.
pub read_quoted-quote_filename :
    (s rest : Bytes) → read_quoted (quote_filename s ++ b'"' ∷ rest) false ≡ some (s, rest)
read_quoted-quote_filename s rest = rw quote-escape (read_quoted-escape s rest)

abbrev hex_value : ℕ → ℕ
hex_value c = if leb c b'9' then c - b'0' else c - b'A' + 10

-- What a receiver reads of an RFC 5987 value; behind a percent sign, with the first digit or not.
pub percent_decode : Bytes → Option (Option ℕ) → Bytes
percent_decode [] st = []
percent_decode (c ∷ s) none =
    let coded = percent_decode s (some none) in
    let plain = c ∷ percent_decode s none in if c == b'%' then coded else plain
percent_decode (c ∷ s) (some none) = percent_decode s (some (some (hex_value c)))
percent_decode (c ∷ s) (some (some high)) = (high * 16 + hex_value c) ∷ percent_decode s none

hex_digit_lem : (n : ℕ) → n < 16 → (hex_value (hex_digit n) ≡ n) × IsPrintable (hex_digit n)
hex_digit_lem n h = ground arith

is_attr_char_lem : (c : ℕ) → is_attr_char c ≡ true → IsPrintable c × ((c == b'%') ≡ false)
unfolding is_attr_char
is_attr_char_lem c h = ground arith

rejoin : (c : ℕ) → c / 16 * 16 + c % 16 ≡ c
rejoin c = omega arith

-- A file name, as bytes, is read back from its extended form, which is printable ASCII.
pub percent_decode-rfc2231_escape :
    (s : Bytes)
    → All (λ c. c < 256) s
    → (percent_decode (rfc2231_escape s) none ≡ s) × All IsPrintable (rfc2231_escape s)
unfolding rfc2231_escape percent_decode
percent_decode-rfc2231_escape [] h = (refl, tt)
percent_decode-rfc2231_escape (c ∷ s) (hc, hs) = elim (Bool-cases (is_attr_char c)) [
  | inl keep ↦
      rw (keep, (is_attr_char_lem c keep).1)
        (
          ap (λ t. c ∷ t) (percent_decode-rfc2231_escape s hs).0,
          ((is_attr_char_lem c keep).0, (percent_decode-rfc2231_escape s hs).1),
        )
  | inr code ↦
      let high = hex_digit_lem (c / 16) (omega arith) in
      let low = hex_digit_lem (c % 16) (omega arith) in
      rw (code, high.0, low.0, rejoin)
        (
          ap (λ t. c ∷ t) (percent_decode-rfc2231_escape s hs).0,
          (omega arith, (high.1, (low.1, (percent_decode-rfc2231_escape s hs).1))),
        )
]
