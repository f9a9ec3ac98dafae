-- ===== src/Multipart/Reader.antt =====
-- utils.go: reading back a multipart body, as a receiver splits it.
use mathlib.Core.Path.{subst}
use gsmail.Prelude.{
  ℕ, zero, suc, ◌≡◌, refl, sym, ap, true, false, Option, none, some, List, [], ◌∷◌, ◌++◌,
  append_assoc, length, drop, arith, if◌then◌else◌,
}
use gsmail.Prelude.Bytes.{Bytes}
use gsmail.Text.Search.{has_prefix}
use gsmail.Mime.{crlf}
use gsmail.Message.Reader.{read_message, longer}

-- what stands before each part but the first
abbrev pub separator : Bytes → Bytes
separator boundary = 13 ∷ 10 ∷ b'-' ∷ b'-' ∷ boundary

-- The text before the first `d` and what follows `d`.
unfoldable pub split_on : Bytes → Bytes → Option (Bytes × Bytes)
unfolding has_prefix
split_on d [] = none
split_on d (c ∷ s) =
    let rest = longer c (split_on d s) in
    if has_prefix (c ∷ s) d then some ([], drop (length d) (c ∷ s)) else rest

abbrev pub ReadPart : Type 0
ReadPart = List (Bytes × Bytes) × Bytes

abbrev pub add_part : Option ReadPart → Option (List ReadPart) → Option (List ReadPart)
add_part (some p) (some parts) = some (p ∷ parts)
add_part _ _ = none

-- the parts of what follows a separator
unfoldable pub read_parts : ℕ → Bytes → Bytes → Option (List ReadPart)
read_parts zero boundary s = none
read_parts (suc n) boundary s =
    if has_prefix s (b'-' ∷ b'-' ∷ [])
    then some []
    else if has_prefix s crlf
    then elim (split_on (separator boundary) (drop 2 s)) [
      | none ↦ none
      | some p ↦ add_part (read_message p.0) (read_parts n boundary p.1)
    ]
    else none

unfoldable pub read_multipart : Bytes → Bytes → Option (List ReadPart)
read_multipart boundary s =
    if has_prefix s (b'-' ∷ b'-' ∷ boundary)
    then read_parts (length s) boundary (drop (length boundary) (drop 2 s))
    else none

-- No `d` begins in `x`, where `y` follows.
abbrev pub Clear : Bytes → Bytes → Bytes → Type 0
Clear d [] y = Unit
Clear d (c ∷ x) y = (has_prefix (c ∷ (x ++ y)) d ≡ false) × Clear d x y

pub Clear-append : (d x x' y : Bytes) → Clear d x (x' ++ y) → Clear d x' y → Clear d (x ++ x') y
Clear-append d [] x' y h k = k
Clear-append d (c ∷ x) x' y h k = (
  subst (λ z. has_prefix (c ∷ z) d ≡ false) (sym (append_assoc x x' y)) h.0,
  Clear-append d x x' y h.1 k,
)

pub has_prefix_self : (d y : Bytes) → has_prefix (d ++ y) d ≡ true
unfolding has_prefix
has_prefix_self [] [] = refl
has_prefix_self [] (c ∷ y) = refl
has_prefix_self (a ∷ d) y = ground (arith, has_prefix_self d y)

pub drop_self : (d y : Bytes) → drop (length d) (d ++ y) ≡ y
drop_self [] y = refl
drop_self (c ∷ d) y = drop_self d y

abbrev after_nothing : Bytes → Option (Bytes × Bytes)
after_nothing z = some ([], z)

pub split_on-separator :
    (b x y : Bytes)
    → Clear (separator b) x (separator b ++ y)
    → split_on (separator b) (x ++ (separator b ++ y)) ≡ some (x, y)
unfolding split_on
split_on-separator b [] y h =
    rw (has_prefix_self (separator b) y) (ap after_nothing (drop_self (separator b) y))
split_on-separator b (c ∷ x) y h = rw h.0 (ap (longer c) (split_on-separator b x y h.1))
