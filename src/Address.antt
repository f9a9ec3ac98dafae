-- ===== src/Address.antt =====
-- utils.go: addresses. mail.ParseAddress and mail.Address.String of the standard library are the
-- record AddressParser.
pub mod Legal
use gsmail.Prelude.{
  Bool, ◌&&◌, ◌||◌, Option, none, some, List, [], ◌∷◌, ◌++◌, ltb, leb, ◌==◌, length, if◌then◌else◌,
}
use gsmail.Prelude.Bytes.{Bytes, bytes_eq, codes}
use gsmail.Errors.{Error, sentinel, err_illegal_address, text}
use gsmail.Text.Utf8.{runes}
use gsmail.Text.Search.{trim_space, cut_last, has_suffix, trim_first, trim_last}
use gsmail.Header.{any, is_illegal_header_rune, sanitize_header_value}

pub record Address : Type 0 where
  pub name : Bytes
  pub address : Bytes

pub record AddressParser : Type 0 where
  pub parse : Bytes → Option Address
  pub format : Address → Bytes

-- The results of ParseEmailAddress: nil with no error, an address, or an error.
pub data Parsed : Type 0 where
  absent : Parsed
  parsed : Address → Parsed
  refused : Error → Parsed

abbrev parse_error : Error
parse_error = text (codes "mail: invalid string")

abbrev shorter : Bytes → Bytes → Bool
shorter s t = ltb (length s) (length t)

-- `len(name) >= 2 && name[0] == '"' && name[len(name)-1] == '"'`, and the slice between
unfoldable pub unquote : Bytes → Bytes
unfolding trim_first trim_last
unquote name =
    if leb 2 (length name)
      && shorter (trim_first b'"' name) name
      && shorter (trim_last b'"' name) name
    then trim_last b'"' (trim_first b'"' name)
    else name

-- the text before the last < and the text after it
pub angle_parts : Option (Bytes × Bytes) → Parsed
unfolding unquote
angle_parts none = refused parse_error
angle_parts (some (before, after)) =
    parsed
      (record { name = unquote (trim_space before); address = trim_space (trim_last b'>' after) })

-- the manual parsing of `Name <email>` after net/mail refused it
unfoldable pub parse_manually : Bytes → Parsed
unfolding angle_parts has_suffix cut_last
parse_manually s =
    if has_suffix s (b'>' ∷ []) then angle_parts (cut_last b'<' s) else refused parse_error

-- strings.Join(_, ", ")
unfoldable pub join_addresses : List Bytes → Bytes
join_addresses [] = []
join_addresses (a ∷ []) = a
join_addresses (a ∷ b ∷ rest) = a ++ (codes ", " ++ join_addresses (b ∷ rest))

module _ (lib : AddressParser) where
  abbrev pub parsed_or : Option Address → Parsed → Parsed
  parsed_or (some a) p = parsed a
  parsed_or none p = p

  unfoldable pub parse_email_address : Bytes → Parsed
  unfolding any is_illegal_header_rune parse_manually
  parse_email_address s =
      if bytes_eq s []
      then absent
      else if any is_illegal_header_rune (runes s)
      then refused (sentinel err_illegal_address)
      else parsed_or (lib.parse s) (parse_manually (trim_space s))

  abbrev pub format_parsed : Parsed → Bytes → Bytes
  format_parsed (parsed a) s = if bytes_eq a.name [] then a.address else lib.format a
  format_parsed _ s = s

  -- `strings.ContainsAny(s, "\r\n")`
  unfoldable pub format_address : Bytes → Bytes
  format_address s =
      if any (λ r. r == b'\r' || r == b'\n') (runes s)
      then []
      else let clean = sanitize_header_value s in format_parsed (parse_email_address clean) clean

  unfoldable pub format_address_list : List Bytes → List Bytes
  format_address_list [] = []
  format_address_list (a ∷ rest) =
      let others = format_address_list rest in
      let f = format_address a in if bytes_eq f [] then others else f ∷ others

  unfoldable pub format_addresses : List Bytes → Bytes
  unfolding join_addresses
  format_addresses addresses = join_addresses (format_address_list addresses)
