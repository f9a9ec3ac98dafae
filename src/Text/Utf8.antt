-- ===== src/Text/Utf8.antt =====
-- How a range loop over a string decodes its runes, and strings.Builder.WriteRune encodes one.
pub mod Laws
use gsmail.Prelude.{
  ℕ, zero, suc, ◌+◌, ◌-◌, ◌*◌, ◌/◌, ◌%◌, Bool, true, false, ◌&&◌, ◌||◌, List, [], ◌∷◌, ◌++◌, ltb,
  leb, ◌==◌, if◌then◌else◌,
}
use gsmail.Prelude.Bytes.{Bytes}

abbrev pub rune_error : ℕ
rune_error = 0xfffd

abbrev pub between : ℕ → ℕ → ℕ → Bool
between lo hi b = leb lo b && leb b hi

-- an ill-formed sequence: one byte is taken, and U+FFFD is the rune
abbrev pub bad : ℕ × ℕ
bad = (rune_error, 0)

unfoldable pub decode_two : ℕ → Bytes → ℕ × ℕ
decode_two b0 (b1 ∷ rest) = if between 0x80 0xbf b1 then (b0 % 32 * 64 + b1 % 64, 1) else bad
decode_two b0 [] = bad

-- the least and the greatest second byte after a first one
abbrev pub lowest : ℕ → ℕ
lowest b0 = if b0 == 0xe0 then 0xa0 else if b0 == 0xf0 then 0x90 else 0x80

abbrev pub highest : ℕ → ℕ
highest b0 = if b0 == 0xed then 0x9f else if b0 == 0xf4 then 0x8f else 0xbf

unfoldable pub decode_three : ℕ → Bytes → ℕ × ℕ
decode_three b0 (b1 ∷ b2 ∷ rest) =
    if between (lowest b0) (highest b0) b1 && between 0x80 0xbf b2
    then (b0 % 16 * 4096 + b1 % 64 * 64 + b2 % 64, 2)
    else bad
decode_three b0 _ = bad

unfoldable pub decode_four : ℕ → Bytes → ℕ × ℕ
decode_four b0 (b1 ∷ b2 ∷ b3 ∷ rest) =
    if between (lowest b0) (highest b0) b1 && between 0x80 0xbf b2 && between 0x80 0xbf b3
    then (b0 % 8 * 262144 + b1 % 64 * 4096 + b2 % 64 * 64 + b3 % 64, 3)
    else bad
decode_four b0 _ = bad

-- The rune that a string starts with, by its first byte and the rest, and how many bytes of the rest
-- belong to it.
unfoldable pub decode_rune : ℕ → Bytes → ℕ × ℕ
unfolding decode_two decode_three decode_four
decode_rune b0 rest =
    if ltb b0 0x80
    then (b0, 0)
    else if between 0xc2 0xdf b0
    then decode_two b0 rest
    else if between 0xe0 0xef b0
    then decode_three b0 rest
    else if between 0xf0 0xf4 b0
    then decode_four b0 rest
    else bad

-- the runes of a string, past so many bytes of the rune before
unfoldable pub runes_after : ℕ → Bytes → List ℕ
unfolding decode_rune
runes_after skip [] = []
runes_after (suc skip) (b ∷ s) = runes_after skip s
runes_after zero (b ∷ s) = (decode_rune b s).0 ∷ runes_after (decode_rune b s).1 s

abbrev pub runes : Bytes → List ℕ
runes = runes_after 0

-- utf8.AppendRune: a surrogate or a number past U+10FFFF is written as U+FFFD
unfoldable pub encode_rune : ℕ → Bytes
encode_rune r =
    if ltb r 0x80
    then r ∷ []
    else if ltb r 0x800
    then (0xc0 + r / 64) ∷ (0x80 + r % 64) ∷ []
    else if between 0xd800 0xdfff r || ltb 0x10ffff r
    then 0xef ∷ 0xbf ∷ 0xbd ∷ []
    else if ltb r 0x10000
    then (0xe0 + r / 4096) ∷ (0x80 + r / 64 % 64) ∷ (0x80 + r % 64) ∷ []
    else (0xf0 + r / 262144) ∷ (0x80 + r / 4096 % 64) ∷ (0x80 + r / 64 % 64) ∷ (0x80 + r % 64) ∷ []
