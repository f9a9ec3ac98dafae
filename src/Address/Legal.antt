-- ===== src/Address/Legal.antt =====
-- utils.go: the characters of formatted addresses.
use gsmail.Prelude.{
  ℕ, ◌≡◌, ◌==◌, refl, ◌||◌, Option, none, some, List, [], ◌∷◌, All, All-append, arith, Bool-cases,
  inl, inr,
}
use gsmail.Prelude.Bytes.{Bytes, bytes_eq}
use gsmail.Text.Utf8.{runes}
use gsmail.Text.Search.{trim_space, cut_last, has_suffix}
use gsmail.Text.Parts.{All-trim_space, All-trim_last, AllPair, cut_last-AllPair}
use gsmail.Header.{any, is_illegal_header_rune, sanitize_header_value}
use gsmail.Header.Sanitize.{IsLegal, sanitize_header_value-IsLegal}
use gsmail.Address.{
  Address, AddressParser, Parsed, absent, parsed, refused, angle_parts, parse_manually, parsed_or,
  join_addresses, parse_email_address, format_parsed, format_address, format_address_list,
  format_addresses,
}

-- What the code relies on of net/mail: the address of a text without illegal characters has none, and
-- an address without illegal characters is printed without, whatever the name is.
pub record LegalParser (lib : AddressParser) : Type 0 where
  pub parse_legal :
      (s : Bytes) (a : Address) → All IsLegal s → lib.parse s ≡ some a → All IsLegal a.address
  pub format_legal : (a : Address) → All IsLegal a.address → All IsLegal (lib.format a)

abbrev LegalResult : Parsed → Type 0
LegalResult (parsed a) = All IsLegal a.address
LegalResult _ = Unit

angle_parts-LegalResult :
    (o : Option (Bytes × Bytes)) → AllPair IsLegal o → LegalResult (angle_parts o)
unfolding angle_parts
angle_parts-LegalResult none h = tt
angle_parts-LegalResult (some (before, after)) h =
    All-trim_space IsLegal _ (All-trim_last IsLegal b'>' after h.1)

parse_manually-LegalResult : (s : Bytes) → All IsLegal s → LegalResult (parse_manually s)
unfolding parse_manually
parse_manually-LegalResult s h = elim (Bool-cases (has_suffix s (b'>' ∷ []))) [
  | inl angle ↦
      rw angle (angle_parts-LegalResult (cut_last b'<' s) (cut_last-AllPair IsLegal b'<' s h))
  | inr plain ↦ rw plain tt
]

pub join_addresses-All :
    (P : ℕ → Type 0) (ps : List Bytes)
    → P b','
    → P b' '
    → All (All P) ps
    → All P (join_addresses ps)
unfolding join_addresses
join_addresses-All P [] comma space h = tt
join_addresses-All P (p ∷ []) comma space h = h.0
join_addresses-All P (p ∷ q ∷ ps) comma space h =
    All-append P p _ h.0 (comma, (space, join_addresses-All P (q ∷ ps) comma space h.1))

module _ (lib : AddressParser) (legal : LegalParser lib) where
  parsed_or-LegalResult :
      (s : Bytes) (o : Option Address)
      → lib.parse s ≡ o
      → All IsLegal s
      → LegalResult (parsed_or lib o (parse_manually (trim_space s)))
  parsed_or-LegalResult s (some a) e h = legal.parse_legal s a h e
  parsed_or-LegalResult s none e h =
      parse_manually-LegalResult (trim_space s) (All-trim_space IsLegal s h)

  parse_email_address-LegalResult :
      (s : Bytes) → All IsLegal s → LegalResult (parse_email_address lib s)
  unfolding parse_email_address
  parse_email_address-LegalResult s h = elim (Bool-cases (bytes_eq s [])) [
    | inl empty ↦ rw empty tt
    | inr filled ↦ elim (Bool-cases (any is_illegal_header_rune (runes s))) [
      | inl bad ↦ rw (filled, bad) tt
      | inr good ↦ rw (filled, good) (parsed_or-LegalResult s (lib.parse s) refl h)
    ]
  ]

  format_parsed-IsLegal :
      (p : Parsed) (s : Bytes) → LegalResult p → All IsLegal s → All IsLegal (format_parsed lib p s)
  format_parsed-IsLegal absent s hp hs = hs
  format_parsed-IsLegal (refused e) s hp hs = hs
  format_parsed-IsLegal (parsed a) s hp hs = elim (Bool-cases (bytes_eq a.name [])) [
    | inl unnamed ↦ rw unnamed hp
    | inr named ↦ rw named (legal.format_legal a hp)
  ]

  pub format_address-IsLegal : (s : Bytes) → All IsLegal (format_address lib s)
  unfolding format_address
  format_address-IsLegal s = elim (Bool-cases (any (λ r. r == b'\r' || r == b'\n') (runes s))) [
    | inl broken ↦ rw broken tt
    | inr whole ↦
        let clean = sanitize_header_value-IsLegal s in
        rw whole (
          format_parsed-IsLegal (parse_email_address lib (sanitize_header_value s))
            (sanitize_header_value s)
            (parse_email_address-LegalResult (sanitize_header_value s) clean) clean)
  ]

  format_address_list-IsLegal : (as' : List Bytes) → All (All IsLegal) (format_address_list lib as')
  unfolding format_address_list
  format_address_list-IsLegal [] = tt
  format_address_list-IsLegal (a ∷ as') = elim (Bool-cases (bytes_eq (format_address lib a) [])) [
    | inl dropped ↦ rw dropped (format_address_list-IsLegal as')
    | inr kept ↦ rw kept (format_address-IsLegal a, format_address_list-IsLegal as')
  ]

  -- Whatever the addresses, no control character but the tab is in the result of FormatAddresses,
  -- if net/mail adds none to an address that has none.
  pub format_addresses-IsLegal : (as' : List Bytes) → All IsLegal (format_addresses lib as')
  unfolding format_addresses
  format_addresses-IsLegal as' =
      join_addresses-All IsLegal (format_address_list lib as') (ground arith) (ground arith)
        (format_address_list-IsLegal as')
