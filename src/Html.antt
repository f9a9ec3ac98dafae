-- ===== src/Html.antt =====
-- utils.go: case-insensitive matching in a byte slice, header fields in a text, and what counts as HTML.
use gsmail.Prelude.{
  ℕ, zero, suc, ◌+◌, ◌-◌, Bool, true, false, not, ◌&&◌, ◌||◌, Option, none, some, List, [], ◌∷◌,
  length, take, drop, ltb, leb, ◌==◌, if◌then◌else◌,
}
use gsmail.Prelude.Bytes.{Bytes, codes}
use gsmail.Text.Search.{has_prefix, lower_ascii}

-- the loop of matchAt, over the bytes from the position on
unfoldable pub matches : Bytes → Bytes → Bool
matches b [] = true
matches [] (d ∷ substr) = false
matches (c ∷ b) (d ∷ substr) = (c == d || lower_ascii c == lower_ascii d) && matches b substr

-- matchAt, at a position that is not negative
unfoldable pub match_at : Bytes → ℕ → Bytes → Bool
unfolding matches
match_at b pos substr =
    if ltb (length b) (pos + length substr) then false else matches (drop pos b) substr

abbrev pub starts_with_byte : ℕ → Bytes → Bool
starts_with_byte c [] = false
starts_with_byte c (d ∷ s) = d == c

unfoldable pub is_header_at : Bytes → ℕ → Bytes → Bool
unfolding match_at
is_header_at b pos header =
    if leb (length b) (pos + length header) || not (match_at b pos header)
    then false
    else starts_with_byte b':' (drop (pos + length header) b)

-- bytes.Index
unfoldable pub index : Bytes → Bytes → Option ℕ
index [] sep = if has_prefix [] sep then some 0 else none
index (c ∷ b) sep =
    let rest = index b sep in
    if has_prefix (c ∷ b) sep then some 0 else elim rest [ none ↦ none | some i ↦ some (suc i) ]

unfoldable pub header_end : Bytes → ℕ
unfolding index
header_end b = elim (index b (13 ∷ 10 ∷ 13 ∷ 10 ∷ [])) [
  | some i ↦ i
  | none ↦ elim (index b (10 ∷ 10 ∷ [])) [ some i ↦ i | none ↦ length b ]
]

-- the loop of hasHeader, for so many rounds from `i` on
unfoldable pub header_from : ℕ → ℕ → Bytes → Bytes → Bool
unfolding is_header_at
header_from zero i b header = false
header_from (suc rounds) i b header =
    (starts_with_byte b'\n' (drop i b) && is_header_at b (i + 1) header)
    || header_from rounds (i + 1) b header

unfoldable pub has_header : Bytes → Bytes → Bool
unfolding is_header_at header_end header_from
has_header b [] = false
has_header b (h ∷ header) =
    is_header_at b 0 (h ∷ header)
    || header_from (header_end b - length (h ∷ header)) 0 b (h ∷ header)

pub record HtmlTag : Type 0 where
  pub prefix : Bytes
  pub heading : Bool

abbrev pub tag : Bytes → HtmlTag
tag prefix = record { prefix = prefix; heading = false }

abbrev pub html_tags : List HtmlTag
html_tags =
    tag (codes "<html")
    ∷ tag (codes "<body")
    ∷ tag (codes "<div")
    ∷ tag (codes "<p")
    ∷ tag (codes "<!doctype")
    ∷ record { prefix = codes "<h"; heading = true }
    ∷ []

unfoldable pub is_tag_terminator : ℕ → Bool
is_tag_terminator c = c == b'>' || c == b'/' || c == b' ' || c == b'\t' || c == b'\r' || c == b'\n'

-- what follows a tag name
unfoldable pub ends_tag : Bytes → Bool
ends_tag [] = false
ends_tag (c ∷ s) = is_tag_terminator c

unfoldable pub ends_heading : Bytes → Bool
unfolding ends_tag
ends_heading [] = false
ends_heading (c ∷ s) = if ltb c b'1' || ltb b'6' c then false else ends_tag s

unfoldable pub is_tag : Bytes → HtmlTag → Bool
unfolding matches ends_heading ends_tag
is_tag b t =
    matches b t.prefix
    && (let rest = drop (length t.prefix) b in
        if t.heading then ends_heading rest else ends_tag rest)

-- the loop of containsTag, over the suffixes of the text
unfoldable pub contains_tag : Bytes → HtmlTag → Bool
unfolding is_tag
contains_tag [] t = false
contains_tag (c ∷ b) t = is_tag (c ∷ b) t || contains_tag b t

unfoldable pub contains_any : Bytes → List HtmlTag → Bool
contains_any b [] = false
contains_any b (t ∷ tags) = contains_tag b t || contains_any b tags

unfoldable pub is_html : Bytes → Bool
unfolding contains_any
is_html b = contains_any (take 1024 b) html_tags
