-- ===== src/Header/Disposition.antt =====
-- utils.go: Content-Disposition as a whole.
use gsmail.Prelude.{
  ℕ, ◌≡◌, ◌≢◌, refl, sym, ◌<◌, true, false, ◌||◌, ◌⊎◌, ltb, some, List, [], ◌∷◌, ◌++◌, arith, All,
  All-append, Bool-cases, inl, inr,
}
use mathlib.Core.Path.{subst}
use gsmail.Prelude.Bytes.{Bytes, codes}
use gsmail.Text.Utf8.{runes, runes_after, encode_rune}
use gsmail.Header.{
  any, is_plain_ascii, underscored, ascii_filename, escape_quoted, quote_filename, disposition_of,
  extended_parameter, format_disposition, sanitize_header_value, write_legal,
  is_illegal_header_rune,
}
use gsmail.Header.Sanitize.{IsPrintable, is_plain_ascii_iff}
use gsmail.Header.Quote.{
  read_quoted, read_quoted-quote_filename, quote-escape, percent_decode-rfc2231_escape,
}

underscored-IsPrintable : (rs : List ℕ) → All IsPrintable (underscored rs)
unfolding underscored encode_rune
underscored-IsPrintable [] = tt
underscored-IsPrintable (r ∷ rs) = ground (arith, underscored-IsPrintable rs)

ascii_filename-IsPrintable : (s : Bytes) → All IsPrintable (ascii_filename s)
unfolding ascii_filename
ascii_filename-IsPrintable s = elim (Bool-cases (is_plain_ascii s)) [
  | inl plain ↦ rw plain ((is_plain_ascii_iff s).0 plain)
  | inr odd ↦ rw odd (underscored-IsPrintable (runes s))
]

escape_quoted-IsPrintable : (s : Bytes) → All IsPrintable s → All IsPrintable (escape_quoted s)
unfolding escape_quoted
escape_quoted-IsPrintable [] h = tt
escape_quoted-IsPrintable (c ∷ s) h = ground (arith, escape_quoted-IsPrintable s h.1)

abbrev IsByte : ℕ → Type 0
IsByte c = c < 256

encode_rune-IsByte : (r : ℕ) → All IsByte (encode_rune r)
unfolding encode_rune
encode_rune-IsByte r = ground arith

write_legal-IsByte : (rs : List ℕ) → All IsByte (write_legal rs)
unfolding write_legal
write_legal-IsByte [] = tt
write_legal-IsByte (r ∷ rs) = elim (Bool-cases (is_illegal_header_rune r)) [
  | inl bad ↦ rw bad (write_legal-IsByte rs)
  | inr good ↦
      rw good (All-append IsByte (encode_rune r) _ (encode_rune-IsByte r) (write_legal-IsByte rs))
]

sanitize-IsByte : (s : Bytes) → All IsByte s → All IsByte (sanitize_header_value s)
unfolding sanitize_header_value
sanitize-IsByte s h = elim (Bool-cases (any is_illegal_header_rune (runes s))) [
  | inl bad ↦ rw bad (write_legal-IsByte (runes s))
  | inr good ↦ rw good h
]

quoted-IsPrintable : (s : Bytes) → All IsPrintable (quote_filename (ascii_filename s))
quoted-IsPrintable s =
    rw quote-escape (escape_quoted-IsPrintable (ascii_filename s) (ascii_filename-IsPrintable s))

extended-IsPrintable : (s : Bytes) → All IsByte s → All IsPrintable (extended_parameter s)
unfolding extended_parameter
extended-IsPrintable s h = elim (Bool-cases (is_plain_ascii s)) [
  | inl plain ↦ rw plain tt
  | inr odd ↦ rw odd (
      All-append IsPrintable (codes "; filename*=utf-8''") _ (omega arith)
        (percent_decode-rfc2231_escape s h).1)
]

disposition_of-IsPrintable :
    (kind s : Bytes) → All IsPrintable kind → All IsByte s → All IsPrintable (disposition_of kind s)
unfolding disposition_of
disposition_of-IsPrintable kind [] hk hs = hk
disposition_of-IsPrintable kind (c ∷ s) hk hs = All-append IsPrintable kind _ hk (
    All-append IsPrintable (codes "; filename=\"") _ (omega arith) (
      All-append IsPrintable _ _ (quoted-IsPrintable (c ∷ s))
        (omega arith, extended-IsPrintable (c ∷ s) hs)))

-- For every file name, as bytes, Content-Disposition is printable ASCII if its kind is.
pub format_disposition-IsPrintable :
    (kind name : Bytes)
    → All IsPrintable kind
    → All (λ c. c < 256) name
    → All IsPrintable (format_disposition kind name)
unfolding format_disposition
format_disposition-IsPrintable kind name hk hn =
    disposition_of-IsPrintable kind (sanitize_header_value name) hk (sanitize-IsByte name hn)

-- The bytes show the runes, one each: a rune of printable ASCII as it is, any other as an underscore.
abbrev pub Shows : List ℕ → Bytes → Type 0
Shows [] [] = Unit
Shows [] (c ∷ s) = ⊥
Shows (r ∷ rs) [] = ⊥
Shows (r ∷ rs) (c ∷ s) = ((IsPrintable r × (c ≡ r)) ⊎ (¬ IsPrintable r × (c ≡ b'_'))) × Shows rs s

encode_rune_ascii : (r : ℕ) → r < 0x80 → encode_rune r ≡ r ∷ []
unfolding encode_rune
encode_rune_ascii r h = ground arith

runes_ascii : (c : ℕ) (s : Bytes) → c < 0x80 → runes (c ∷ s) ≡ c ∷ runes s
unfolding runes_after
runes_ascii c s h = let low : ltb c 0x80 ≡ true = ground arith in rw low refl

underscored-Shows : (rs : List ℕ) → Shows rs (underscored rs)
unfolding underscored
underscored-Shows [] = tt
underscored-Shows (r ∷ rs) = elim (Bool-cases (ltb r 0x20 || ltb 0x7e r)) [
  | inl other ↦ rw other (inr (ground arith, refl), underscored-Shows rs)
  | inr shown ↦
      rw (shown, encode_rune_ascii r (ground arith))
        (inl (ground arith, refl), underscored-Shows rs)
]

plain-Shows : (s : Bytes) → All IsPrintable s → Shows (runes s) s
unfolding runes_after
plain-Shows [] h = tt
plain-Shows (c ∷ s) h =
    subst (λ rs. Shows rs (c ∷ s)) (sym (runes_ascii c s (ground arith)))
      (inl (h.0, refl), plain-Shows s h.1)

ascii_filename-Shows : (s : Bytes) → Shows (runes s) (ascii_filename s)
unfolding ascii_filename
ascii_filename-Shows s = elim (Bool-cases (is_plain_ascii s)) [
  | inl plain ↦ rw plain (plain-Shows s ((is_plain_ascii_iff s).0 plain))
  | inr odd ↦ rw odd (underscored-Shows (runes s))
]

disposition_of-reads :
    (kind s : Bytes)
    → s ≢ []
    → (tail : Bytes) × (shown : Bytes) × (rest : Bytes) × (disposition_of kind s
        ≡ kind ++ (codes "; filename=\"" ++ tail))
      × (read_quoted tail false ≡ some (shown, rest))
      × Shows (runes s) shown
unfolding disposition_of
disposition_of-reads kind [] h = absurd (h refl)
disposition_of-reads kind (c ∷ s) h = (
  _,
  ascii_filename (c ∷ s),
  extended_parameter (c ∷ s),
  refl,
  read_quoted-quote_filename (ascii_filename (c ∷ s)) (extended_parameter (c ∷ s)),
  ascii_filename-Shows (c ∷ s),
)

-- Where the sanitised name is not empty, the quoted string behind `; filename=` is closed, whatever
-- the name, and reads back as the sanitised name, from which control characters are gone, with each
-- of its runes that is printable ASCII as it is and an underscore for each other one.
pub format_disposition-reads :
    (kind name : Bytes)
    → sanitize_header_value name ≢ []
    → (tail : Bytes) × (shown : Bytes) × (rest : Bytes) × (format_disposition kind name
        ≡ kind ++ (codes "; filename=\"" ++ tail))
      × (read_quoted tail false ≡ some (shown, rest))
      × Shows (runes (sanitize_header_value name)) shown
unfolding format_disposition
format_disposition-reads kind name = disposition_of-reads kind (sanitize_header_value name)
