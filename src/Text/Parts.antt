-- ===== src/Text/Parts.antt =====
-- Texts taken out of a text have only bytes of it.
use mathlib.Core.List.{reverse, reverse_aux}
use gsmail.Prelude.{
  ℕ, zero, suc, ◌-◌, ◌==◌, ◌≡◌, ◌≢◌, refl, true, false, ◌++◌, arith, Option, none, some, [], ◌∷◌,
  All, if◌then◌else◌, Bool-cases, inl, inr,
}
use gsmail.Prelude.Bytes.{Bytes}
use gsmail.Text.Search.{
  space_width, space_width_back, trim_start, trim_space, trim_first, trim_last, cut, cut_last,
}

module _ {κ} (P : ℕ → Type κ) where
  All-reverse_aux : (s acc : Bytes) → All P s → All P acc → All P (reverse_aux s acc)
  unfolding reverse_aux
  All-reverse_aux [] acc h ha = ha
  All-reverse_aux (c ∷ s) acc h ha = All-reverse_aux s (c ∷ acc) h.1 (h.0, ha)

  All-reverse : (s : Bytes) → All P s → All P (reverse s)
  unfolding reverse
  All-reverse s h = All-reverse_aux s [] h tt

  All-trim_start :
      (width : Bytes → ℕ) (skip : ℕ) (s : Bytes) → All P s → All P (trim_start width skip s)
  unfolding trim_start
  All-trim_start width skip [] h = tt
  All-trim_start width (suc skip) (b ∷ s) h = All-trim_start width skip s h.1
  All-trim_start width zero (b ∷ s) h = elim (Bool-cases (width (b ∷ s) == 0)) [
    | inl stop ↦ rw stop h
    | inr more ↦ rw more (All-trim_start width (width (b ∷ s) - 1) s h.1)
  ]

  pub All-trim_space : (s : Bytes) → All P s → All P (trim_space s)
  unfolding trim_space
  All-trim_space s h =
      All-reverse _
        (All-trim_start space_width_back 0 _ (All-reverse _ (All-trim_start space_width 0 s h)))

  pub All-trim_first : (c : ℕ) (s : Bytes) → All P s → All P (trim_first c s)
  unfolding trim_first
  All-trim_first c [] h = tt
  All-trim_first c (d ∷ s) h = elim (Bool-cases (d == c)) [
    | inl same ↦ rw same h.1
    | inr other ↦ rw other h
  ]

  pub All-trim_last : (c : ℕ) (s : Bytes) → All P s → All P (trim_last c s)
  unfolding trim_last
  All-trim_last c s h = All-reverse _ (All-trim_first c _ (All-reverse s h))

  -- both sides of a cut
  abbrev pub AllPair : Option (Bytes × Bytes) → Type κ
  AllPair none = Unit
  AllPair (some (a, b)) = All P a × All P b

  pub cut_last-AllPair : (c : ℕ) (s : Bytes) → All P s → AllPair (cut_last c s)
  unfolding cut_last
  cut_last-AllPair c [] h = tt
  cut_last-AllPair c (d ∷ s) h = by_rest (cut_last c s) (cut_last-AllPair c s h.1)
    where
      by_rest :
          (o : Option (Bytes × Bytes))
          → AllPair o
          → AllPair (elim o [
            | some (a, b) ↦ some (d ∷ a, b)
            | none ↦ if d == c then some ([], s) else none
          ])
      by_rest (some (a, b)) k = ((h.0, k.0), k.1)
      by_rest none k = elim (Bool-cases (d == c)) [
        | inl same ↦ rw same (tt, h.1)
        | inr other ↦ rw other tt
      ]

-- A separator that is not in the text before it is found.
pub cut-append : (c : ℕ) (x y : Bytes) → All (λ d. d ≢ c) x → cut c (x ++ c ∷ y) ≡ some (x, y)
unfolding cut
cut-append c [] y h = let same : (c == c) ≡ true = ground arith in rw same refl
cut-append c (d ∷ x) y h =
    let other : (d == c) ≡ false = ground (arith, h.0) in rw (other, cut-append c x y h.1) refl
