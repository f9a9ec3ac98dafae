-- ===== src/Text/Utf8/Laws.antt =====
-- Below 0x80 the bytes of a string are its runes: multi-byte sequences have only bytes from 0x80 up.
use gsmail.Prelude.{ℕ, zero, suc, ◌≤◌, ◌<◌, ◌≡◌, [], ◌∷◌, arith, All, take}
use mathlib.Core.Path.{subst}
use native.Mathlib.Decide.{dec_lt}
use gsmail.Prelude.Bytes.{Bytes}
use gsmail.Text.Utf8.{decode_rune, runes_after, encode_rune}

abbrev pub IsHigh : ℕ → Type 0
IsHigh b = 0x80 ≤ b

decode_rune-IsHigh : (b : ℕ) (s : Bytes) → All IsHigh (take (decode_rune b s).1 s)
unfolding decode_rune
decode_rune-IsHigh b [] = ground arith
decode_rune-IsHigh b (b1 ∷ []) = ground arith
decode_rune-IsHigh b (b1 ∷ b2 ∷ []) = ground arith
decode_rune-IsHigh b (b1 ∷ b2 ∷ b3 ∷ s) = ground arith

-- A rune is the first byte, or both are from 0x80 up.
pub decode_rune-low :
    (b : ℕ) (s : Bytes)
    → (b < 0x80 → (decode_rune b s).0 ≡ b) × (0x80 ≤ b → 0x80 ≤ (decode_rune b s).0)
unfolding decode_rune
decode_rune-low b [] = ground arith
decode_rune-low b (b1 ∷ []) = ground arith
decode_rune-low b (b1 ∷ b2 ∷ []) = ground arith
decode_rune-low b (b1 ∷ b2 ∷ b3 ∷ s) = ground arith

encode_rune-low : (r : ℕ) → r < 0x80 → encode_rune r ≡ r ∷ []
unfolding encode_rune
encode_rune-low r h = ground arith

encode_rune-IsHigh : (r : ℕ) → 0x80 ≤ r → All IsHigh (encode_rune r)
unfolding encode_rune
encode_rune-IsHigh r h = ground arith

-- For a property of every number from 0x80 up, bytes and runes have it alike.
module _ (P : ℕ → Type 0) (high : (r : ℕ) → 0x80 ≤ r → P r) where
  rune_lem : (b : ℕ) (s : Bytes) → P b → P (decode_rune b s).0
  rune_lem b s p = elim (dec_lt b 0x80) [
    | yes low ↦ rw ((decode_rune-low b s).0 low) p
    | no not_low ↦ high _ ((decode_rune-low b s).1 (omega arith))
  ]

  byte_lem : (b : ℕ) (s : Bytes) → P (decode_rune b s).0 → P b
  byte_lem b s p = elim (dec_lt b 0x80) [
    | yes low ↦ subst P ((decode_rune-low b s).0 low) p
    | no not_low ↦ high b (omega arith)
  ]

  pub All-runes_after : (k : ℕ) (s : Bytes) → All P s → All P (runes_after k s)
  unfolding runes_after
  All-runes_after zero [] h = tt
  All-runes_after (suc k) [] h = tt
  All-runes_after (suc k) (b ∷ s) h = All-runes_after k s h.1
  All-runes_after zero (b ∷ s) h = (rune_lem b s h.0, All-runes_after (decode_rune b s).1 s h.1)

  pub All-bytes : (k : ℕ) (s : Bytes) → All IsHigh (take k s) → All P (runes_after k s) → All P s
  unfolding runes_after
  All-bytes zero [] t h = tt
  All-bytes (suc k) [] t h = tt
  All-bytes (suc k) (b ∷ s) t h = (high b t.0, All-bytes k s t.1 h)
  All-bytes zero (b ∷ s) t h =
      (byte_lem b s h.0, All-bytes (decode_rune b s).1 s (decode_rune-IsHigh b s) h.1)

  All-high : (s : Bytes) → All IsHigh s → All P s
  All-high [] h = tt
  All-high (b ∷ s) h = (high b h.0, All-high s h.1)

  pub All-encode_rune : (r : ℕ) → P r → All P (encode_rune r)
  All-encode_rune r p = elim (dec_lt r 0x80) [
    | yes low ↦ rw (encode_rune-low r low) (p, tt)
    | no not_low ↦ All-high (encode_rune r) (encode_rune-IsHigh r (omega arith))
  ]
