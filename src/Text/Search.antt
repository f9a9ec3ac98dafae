-- ===== src/Text/Search.antt =====
-- What the program uses of Go's strings package: case, trimming and searching.
use gsmail.Prelude.{
  ℕ, zero, suc, ◌+◌, ◌-◌, Bool, true, false, ◌&&◌, ◌||◌, Option, none, some, List, [], ◌∷◌, ltb,
  ◌==◌, if◌then◌else◌,
}
use mathlib.Core.List.{flat_map, reverse}
use gsmail.Prelude.Bytes.{Bytes}
use gsmail.Text.Utf8.{runes, encode_rune, between}

-- The tables of the unicode package beyond ASCII: the lower case and the upper case of a rune, and
-- whether two runes, one of them at least not ASCII, are equal under simple case folding.
pub record Unicode : Type 0 where
  pub lower : ℕ → ℕ
  pub upper : ℕ → ℕ
  pub same_fold : ℕ → ℕ → Bool

abbrev pub lower_ascii : ℕ → ℕ
lower_ascii c = if between b'A' b'Z' c then c + 32 else c

abbrev pub upper_ascii : ℕ → ℕ
upper_ascii c = if between b'a' b'z' c then c - 32 else c

module _ (u : Unicode) where
  -- strings.ToLower maps the runes
  unfoldable pub to_lower : Bytes → Bytes
  unfolding flat_map
  to_lower s =
      flat_map (λ r. encode_rune (if ltb r 0x80 then lower_ascii r else u.lower r)) (runes s)

  unfoldable pub to_upper : Bytes → Bytes
  unfolding flat_map
  to_upper s =
      flat_map (λ r. encode_rune (if ltb r 0x80 then upper_ascii r else u.upper r)) (runes s)

  unfoldable pub folds_to : List ℕ → List ℕ → Bool
  folds_to [] [] = true
  folds_to (r ∷ rs) (t ∷ ts) =
      (if ltb r 0x80 && ltb t 0x80
        then lower_ascii r == lower_ascii t
        else r == t || u.same_fold r t)
      && folds_to rs ts
  folds_to _ _ = false

  unfoldable pub equal_fold : Bytes → Bytes → Bool
  unfolding folds_to
  equal_fold s t = folds_to (runes s) (runes t)

-- strings.TrimSpace. How many bytes of white space stand at the start, 0 for none: ASCII white space,
-- and U+0085, U+00A0, U+1680, U+2000 to U+200A, U+2028, U+2029, U+202F, U+205F and U+3000.
abbrev pub is_ascii_space : ℕ → Bool
is_ascii_space b = between 9 13 b || b == 32

abbrev pub is_space_three : ℕ → ℕ → ℕ → Bool
is_space_three a b c =
    (a == 0xe1 && b == 0x9a && c == 0x80)
    || (a == 0xe2 && b == 0x80 && (between 0x80 0x8a c || between 0xa8 0xa9 c || c == 0xaf))
    || (a == 0xe2 && b == 0x81 && c == 0x9f)
    || (a == 0xe3 && b == 0x80 && c == 0x80)

unfoldable pub space_width : Bytes → ℕ
space_width [] = 0
space_width (a ∷ []) = if is_ascii_space a then 1 else 0
space_width (a ∷ b ∷ []) =
    if is_ascii_space a then 1 else if a == 0xc2 && (b == 0x85 || b == 0xa0) then 2 else 0
space_width (a ∷ b ∷ c ∷ s) =
    if is_ascii_space a
    then 1
    else if a == 0xc2 && (b == 0x85 || b == 0xa0)
    then 2
    else if is_space_three a b c
    then 3
    else 0

-- the same at the end, of a reversed text
unfoldable pub space_width_back : Bytes → ℕ
space_width_back [] = 0
space_width_back (c ∷ []) = if is_ascii_space c then 1 else 0
space_width_back (c ∷ b ∷ []) =
    if is_ascii_space c then 1 else if b == 0xc2 && (c == 0x85 || c == 0xa0) then 2 else 0
space_width_back (c ∷ b ∷ a ∷ s) =
    if is_ascii_space c
    then 1
    else if b == 0xc2 && (c == 0x85 || c == 0xa0)
    then 2
    else if is_space_three a b c
    then 3
    else 0

-- past so many bytes of the white space before
unfoldable pub trim_start : (Bytes → ℕ) → ℕ → Bytes → Bytes
trim_start width skip [] = []
trim_start width (suc skip) (b ∷ s) = trim_start width skip s
trim_start width zero (b ∷ s) =
    let w = width (b ∷ s) in let rest = trim_start width (w - 1) s in if w == 0 then b ∷ s else rest

unfoldable pub trim_space : Bytes → Bytes
unfolding trim_start space_width space_width_back
trim_space s = reverse (trim_start space_width_back 0 (reverse (trim_start space_width 0 s)))

unfoldable pub has_prefix : Bytes → Bytes → Bool
has_prefix s [] = true
has_prefix [] (p ∷ ps) = false
has_prefix (c ∷ s) (p ∷ ps) = c == p && has_prefix s ps

unfoldable pub has_suffix : Bytes → Bytes → Bool
unfolding has_prefix
has_suffix s t = has_prefix (reverse s) (reverse t)

-- s without its first byte where that is `c`, as strings.TrimPrefix by a one-byte text
unfoldable pub trim_first : ℕ → Bytes → Bytes
trim_first c [] = []
trim_first c (d ∷ s) = if d == c then s else d ∷ s

unfoldable pub trim_last : ℕ → Bytes → Bytes
unfolding trim_first
trim_last c s = reverse (trim_first c (reverse s))

-- strings.Contains
unfoldable pub contains : Bytes → Bytes → Bool
unfolding has_prefix
contains [] t = has_prefix [] t
contains (c ∷ s) t = has_prefix (c ∷ s) t || contains s t

-- The text around the first `c`: strings.Cut by a one-byte separator.
unfoldable pub cut : ℕ → Bytes → Option (Bytes × Bytes)
cut c [] = none
cut c (d ∷ s) =
    let rest = cut c s in
    if d == c then some ([], s) else elim rest [ none ↦ none | some (a, b) ↦ some (d ∷ a, b) ]

-- The text around the last `c`: strings.LastIndexByte and the two slices there.
unfoldable pub cut_last : ℕ → Bytes → Option (Bytes × Bytes)
cut_last c [] = none
cut_last c (d ∷ s) = elim (cut_last c s) [
  | some (a, b) ↦ some (d ∷ a, b)
  | none ↦ if d == c then some ([], s) else none
]

-- strings.Split by a one-byte separator
unfoldable pub split : ℕ → Bytes → List Bytes
split c [] = [] ∷ []
split c (d ∷ s) =
    let rest = split c s in
    if d == c then [] ∷ rest else elim rest [ [] ↦ (d ∷ []) ∷ [] | p ∷ ps ↦ (d ∷ p) ∷ ps ]
