-- ===== src/Header/Tests.antt =====
-- utils.go: the theorems on header values and file names at concrete inputs.
use gsmail.Prelude.{◌≡◌, ◌≢◌, refl, false, some, [], ◌∷◌, ◌++◌, All}
use gsmail.Prelude.Bytes.{Bytes, codes}
use gsmail.Header.{sanitize_header_value, format_disposition}
use gsmail.Text.Utf8.{runes, runes_after, encode_rune}
use gsmail.Header.Sanitize.{IsLegal, sanitize_header_value-IsLegal}
use gsmail.Header.Quote.{read_quoted}
use gsmail.Header.Disposition.{Shows, format_disposition-reads}

-- a value with a line break and the start of an injected header
abbrev injected : Bytes
injected = codes "Hi" ++ 13 ∷ 10 ∷ codes "Bcc: x"

-- a file name with a quote, a backslash and a letter that is not ASCII
abbrev name : Bytes
name = codes "a\"b\\" ++ 0xc3 ∷ 0xa9 ∷ []

-- The line break is dropped.
injected_is_sanitized : sanitize_header_value injected ≡ codes "HiBcc: x"
unfolding sanitize_header_value runes_after encode_rune
injected_is_sanitized = refl

sanitize_header_value-IsLegal_example : All IsLegal (sanitize_header_value injected)
sanitize_header_value-IsLegal_example = sanitize_header_value-IsLegal injected

name_remains : sanitize_header_value name ≢ []
unfolding sanitize_header_value runes_after
name_remains = λ e. cc e

format_disposition-reads_example :
    (tail : Bytes) × (shown : Bytes) × (rest : Bytes) × (format_disposition (codes "inline") name
      ≡ codes "inline" ++ (codes "; filename=\"" ++ tail))
    × (read_quoted tail false ≡ some (shown, rest))
    × Shows (runes (sanitize_header_value name)) shown
format_disposition-reads_example = format_disposition-reads (codes "inline") name name_remains
