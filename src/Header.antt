-- ===== src/Header.antt =====
-- utils.go: header values, header names and the parameters of Content-Disposition.
mod Tests
pub mod Sanitize
pub mod Quote
pub mod Disposition
use gsmail.Prelude.{
  ℕ, zero, suc, ◌+◌, ◌-◌, ◌*◌, ◌/◌, ◌%◌, ◌^◌, Bool, true, false, not, ◌&&◌, ◌||◌, Option, none,
  some, List, [], ◌∷◌, ◌++◌, ltb, leb, ◌==◌, if◌then◌else◌,
}
use gsmail.Prelude.Bytes.{Bytes, codes, bytes_eq}
use gsmail.Text.Utf8.{runes, encode_rune, between}

-- strings.ContainsFunc, on the runes
unfoldable pub any : (ℕ → Bool) → List ℕ → Bool
any f [] = false
any f (r ∷ rs) = f r || any f rs

unfoldable pub is_illegal_header_rune : ℕ → Bool
is_illegal_header_rune r = (ltb r 0x20 && not (r == b'\t')) || r == 0x7f

-- the loop of sanitizeHeaderValue over the runes
unfoldable pub write_legal : List ℕ → Bytes
unfolding is_illegal_header_rune
write_legal [] = []
write_legal (r ∷ rs) =
    let rest = write_legal rs in if is_illegal_header_rune r then rest else encode_rune r ++ rest

unfoldable pub sanitize_header_value : Bytes → Bytes
unfolding any write_legal
sanitize_header_value s = if any is_illegal_header_rune (runes s) then write_legal (runes s) else s

-- isPlainASCII; encodeHeader makes the same test
unfoldable pub is_plain_ascii : Bytes → Bool
is_plain_ascii [] = true
is_plain_ascii (c ∷ s) = if ltb c 0x20 || ltb 0x7e c then false else is_plain_ascii s

-- mime.QEncoding.Encode("UTF-8", s) of the standard library is the parameter `q_encode`.
unfoldable pub encode_header : (Bytes → Bytes) → Bytes → Bytes
unfolding sanitize_header_value is_plain_ascii
encode_header q_encode value =
    let s = sanitize_header_value value in
    if bytes_eq s [] then [] else if is_plain_ascii s then s else q_encode s

-- the loop of isValidHeaderName
unfoldable pub valid_name_bytes : Bytes → Bool
valid_name_bytes [] = true
valid_name_bytes (c ∷ s) =
    if leb c b' ' || leb 0x7f c || c == b':' then false else valid_name_bytes s

unfoldable pub is_valid_header_name : Bytes → Bool
unfolding valid_name_bytes
is_valid_header_name [] = false
is_valid_header_name (c ∷ s) = valid_name_bytes (c ∷ s)

unfoldable pub underscored : List ℕ → Bytes
underscored [] = []
underscored (r ∷ rs) =
    let rest = underscored rs in
    if ltb r 0x20 || ltb 0x7e r then b'_' ∷ rest else encode_rune r ++ rest

unfoldable pub ascii_filename : Bytes → Bytes
unfolding is_plain_ascii underscored
ascii_filename s = if is_plain_ascii s then s else underscored (runes s)

abbrev pub needs_escape : ℕ → Bool
needs_escape c = c == b'"' || c == b'\\'

unfoldable pub escape_quoted : Bytes → Bytes
escape_quoted [] = []
escape_quoted (c ∷ s) =
    let rest = escape_quoted s in if needs_escape c then b'\\' ∷ c ∷ rest else c ∷ rest

-- strings.ContainsAny(s, `"\`) looks at runes
unfoldable pub quote_filename : Bytes → Bytes
unfolding any escape_quoted
quote_filename s = if any needs_escape (runes s) then escape_quoted s else s

unfoldable pub index_byte? : ℕ → Bytes → Bool
index_byte? c [] = false
index_byte? c (d ∷ s) = d == c || index_byte? c s

unfoldable pub is_attr_char : ℕ → Bool
unfolding index_byte?
is_attr_char c =
    between b'a' b'z' c
    || between b'A' b'Z' c
    || between b'0' b'9' c
    || index_byte? c (codes "!#$&+-.^_`|~")

-- "0123456789ABCDEF"[n]
abbrev pub hex_digit : ℕ → ℕ
hex_digit n = if ltb n 10 then b'0' + n else b'A' + (n - 10)

unfoldable pub rfc2231_escape : Bytes → Bytes
unfolding is_attr_char
rfc2231_escape [] = []
rfc2231_escape (c ∷ s) =
    let rest = rfc2231_escape s in
    if is_attr_char c then c ∷ rest else b'%' ∷ hex_digit (c / 16) ∷ hex_digit (c % 16) ∷ rest

-- `if !isPlainASCII(filename)`
unfoldable pub extended_parameter : Bytes → Bytes
extended_parameter filename =
    if is_plain_ascii filename then [] else codes "; filename*=utf-8''" ++ rfc2231_escape filename

-- what the builder writes for a name that is sanitised
unfoldable pub disposition_of : Bytes → Bytes → Bytes
disposition_of kind [] = kind
disposition_of kind (c ∷ s) =
    kind
    ++ (codes "; filename=\""
        ++ (quote_filename (ascii_filename (c ∷ s)) ++ b'"' ∷ extended_parameter (c ∷ s)))

unfoldable pub format_disposition : Bytes → Bytes → Bytes
unfolding disposition_of
format_disposition kind filename = disposition_of kind (sanitize_header_value filename)
