-- ===== src/Mime/Lines.antt =====
-- utils.go: the folding of base64 into lines.
use gsmail.Prelude.{
  ℕ, zero, suc, ◌+◌, ◌-◌, ◌≤◌, ◌<◌, ◌≡◌, refl, sym, ap, ◌∙◌, Bool, true, false, Option, none, some,
  [], ◌∷◌, ◌++◌, append_assoc, length, length-drop, take, drop, ltb, leb, ◌==◌, All, arith,
  Bool-cases, inl, inr, if◌then◌else◌,
}
use gsmail.Prelude.Bytes.{Bytes}
use gsmail.Mime.{crlf, min, put, base64, write_lines, written, write_mime_base64}
use gsmail.Mime.Base64.{IsAlphabet, base64_decode, base64_decode-base64, base64-IsAlphabet}

-- The folding byte by byte: a line break before each byte that would be the 77th of its line.
unfoldable pub fold : ℕ → Bytes → Bytes
fold col [] = []
fold col (c ∷ p) =
    let broken = fold 1 p in
    let more = fold (suc col) p in if col == 76 then crlf ++ c ∷ broken else c ∷ more

unfoldable pub column_after : ℕ → Bytes → ℕ
column_after col [] = col
column_after col (c ∷ p) =
    let broken = column_after 1 p in
    let more = column_after (suc col) p in if col == 76 then broken else more

-- the bytes that still fit on the line
fold-take :
    (n col : ℕ) (p : Bytes)
    → col + n ≤ 76
    → n ≤ length p
    → (fold col p ≡ take n p ++ fold (col + n) (drop n p))
      × (column_after col p ≡ column_after (col + n) (drop n p))
unfolding fold column_after
fold-take zero col p h k = let e : col + 0 ≡ col = omega arith in rw e (refl, refl)
fold-take (suc n) col [] h k = absurd (omega (arith, k))
fold-take (suc n) col (c ∷ p) h k =
    let room : (col == 76) ≡ false = ground (arith, h) in
    let next : col + suc n ≡ suc col + n = omega arith in
    let ih = fold-take n (suc col) p (omega (arith, h)) (omega (arith, k)) in
    rw (room, next) (ap (λ z. c ∷ z) ih.0, ih.1)

-- how much of a text the loop writes in one round
abbrev width : ℕ → Bytes → ℕ
width col p = min (76 - col) (length p)

width_fits : (col : ℕ) (p : Bytes) → col < 76 → col + width col p ≤ 76
width_fits col p h = ground arith

rest_fits :
    (fuel col : ℕ) (p : Bytes)
    → col < 76
    → 1 ≤ length p
    → length p ≤ suc fuel
    → length (drop (width col p) p) ≤ fuel
rest_fits fuel col p h k m =
    let some_width : 1 ≤ width col p = ground (arith, h, k) in
    omega (arith, length-drop (width col p) p, some_width, m)

width-le : (col : ℕ) (p : Bytes) → width col p ≤ length p
width-le col p = ground arith

round :
    (fuel col : ℕ) (p start : Bytes)
    → col < 76
    → write_lines fuel (col + width col p) (drop (width col p) p)
      ≡ some (
        fold (col + width col p) (drop (width col p) p),
        column_after (col + width col p) (drop (width col p) p),
      )
    → put
        (start ++ take (width col p) p)
        (write_lines fuel (col + width col p) (drop (width col p) p))
      ≡ some (start ++ fold col p, column_after col p)
round fuel col p start h ih =
    let parts = fold-take (width col p) col p (width_fits col p h) (width-le col p) in
    ap (put (start ++ take (width col p) p)) ih
    ∙ ap (λ (z : Bytes). some (z, column_after (col + width col p) (drop (width col p) p)))
        (append_assoc start (take (width col p) p)
          (fold (col + width col p) (drop (width col p) p)))
    ∙ ap (λ (z : Bytes). some (start ++ z, column_after (col + width col p) (drop (width col p) p)))
        (sym parts.0)
    ∙ ap (λ (z : ℕ). some (start ++ fold col p, z)) (sym parts.1)

fold-nil :
    (col : ℕ)
    → ◌≡◌ {A = Option (Bytes × ℕ)} (some ([], col)) (some (fold col [], column_after col []))
unfolding fold column_after
fold-nil col = refl

-- a full line is broken, whatever follows
fold_full :
    (col c : ℕ) (p : Bytes)
    → (col == 76) ≡ true
    → ◌≡◌ {A = Option (Bytes × ℕ)}
        (some (crlf ++ fold 0 (c ∷ p), column_after 0 (c ∷ p)))
        (some (fold col (c ∷ p), column_after col (c ∷ p)))
unfolding fold column_after
fold_full col c p e = rw e refl

-- From a column of at most 76, base64MIMEWriter.Write ends after at most one round for each byte,
-- and writes the bytes with a line break before each that would be the 77th of its line, and keeps
-- the column that belongs to that.
pub write_lines-fold :
    (fuel col : ℕ) (p : Bytes)
    → length p ≤ fuel
    → col ≤ 76
    → write_lines fuel col p ≡ some (fold col p, column_after col p)
unfolding write_lines
write_lines-fold fuel col [] h k = fold-nil col
write_lines-fold zero col (c ∷ p) h k = absurd (omega (arith, h))
write_lines-fold (suc fuel) col (c ∷ p) h k = elim (Bool-cases (col == 76)) [
  | inl full ↦ rw full (
      round fuel 0 (c ∷ p) crlf (omega arith) (
        write_lines-fold fuel (0 + width 0 (c ∷ p)) (drop (width 0 (c ∷ p)) (c ∷ p))
          (rest_fits fuel 0 (c ∷ p) (omega arith) (omega arith) h)
          (width_fits 0 (c ∷ p) (omega arith)))
      ∙ fold_full col c p full)
  | inr room ↦
      let open_line : col < 76 = ground (arith, k, room) in
      rw room (
        round fuel col (c ∷ p) [] open_line (
          write_lines-fold fuel (col + width col (c ∷ p)) (drop (width col (c ∷ p)) (c ∷ p))
            (rest_fits fuel col (c ∷ p) open_line (omega arith) h)
            (width_fits col (c ∷ p) open_line)))
]

column_after-le : (col : ℕ) (p : Bytes) → col ≤ 76 → column_after col p ≤ 76
unfolding column_after
column_after-le col [] h = h
column_after-le col (c ∷ p) h = elim (Bool-cases (col == 76)) [
  | inl full ↦ rw full (column_after-le 1 p (omega arith))
  | inr room ↦ rw room (column_after-le (suc col) p (ground (arith, h, room)))
]

fold-append :
    (col : ℕ) (p q : Bytes)
    → (fold col (p ++ q) ≡ fold col p ++ fold (column_after col p) q)
      × (column_after col (p ++ q) ≡ column_after (column_after col p) q)
unfolding fold column_after
fold-append col [] q = (refl, refl)
fold-append col (c ∷ p) q = elim (Bool-cases (col == 76)) [
  | inl full ↦ let ih = fold-append 1 p q in rw full (ap (λ z. 13 ∷ 10 ∷ c ∷ z) ih.0, ih.1)
  | inr room ↦ let ih = fold-append (suc col) p q in rw room (ap (λ z. c ∷ z) ih.0, ih.1)
]

-- Another call of Write, where the last one left its column.
unfoldable pub write_next : Bytes → Option (Bytes × ℕ) → Option (Bytes × ℕ)
unfolding write_lines
write_next q none = none
write_next q (some (out, col)) = put out (write_lines (length q) col q)

pub write_lines-append :
    (col : ℕ) (p q : Bytes)
    → col ≤ 76
    → write_next q (write_lines (length p) col p) ≡ write_lines (length (p ++ q)) col (p ++ q)
unfolding write_next
write_lines-append col p q h =
    let parts = fold-append col p q in
    let first = write_lines-fold (length p) col p (omega arith) h in
    let second =
      write_lines-fold (length q) (column_after col p) q (omega arith) (column_after-le col p h) in
    let both = write_lines-fold (length (p ++ q)) col (p ++ q) (omega arith) h in
    rw (first, second, both, parts.0, parts.1) refl

-- what a receiver skips in the body
unfoldable pub strip : Bytes → Bytes
strip [] = []
strip (c ∷ s) = if ltb c 32 then strip s else c ∷ strip s

pub strip-crlf : (s : Bytes) → strip (s ++ crlf) ≡ strip s
unfolding strip
strip-crlf [] = refl
strip-crlf (c ∷ s) = elim (Bool-cases (ltb c 32)) [
  | inl control ↦ rw control (strip-crlf s)
  | inr printed ↦ rw printed (ap (λ z. c ∷ z) (strip-crlf s))
]

-- no line of a text, the first of which begins at a column, is longer than 76
unfoldable pub lines_fit : ℕ → Bytes → Bool
lines_fit col [] = true
lines_fit col (c ∷ s) =
    let next_line = lines_fit 0 s in
    let same = lines_fit col s in
    let more = lines_fit (suc col) s in
    if c == 10 then next_line else if c == 13 then same else if leb 76 col then false else more

strip-fold : (col : ℕ) (p : Bytes) → All IsAlphabet p → strip (fold col p) ≡ p
unfolding strip fold
strip-fold col [] h = refl
strip-fold col (c ∷ p) h =
    let printed : ltb c 32 ≡ false = ground (arith, h.0) in
    elim (Bool-cases (col == 76)) [
      | inl full ↦ rw (full, printed) (ap (λ z. c ∷ z) (strip-fold 1 p h.1))
      | inr room ↦ rw (room, printed) (ap (λ z. c ∷ z) (strip-fold (suc col) p h.1))
    ]

lines_fit-fold :
    (col : ℕ) (p : Bytes) → All IsAlphabet p → col ≤ 76 → lines_fit col (fold col p) ≡ true
unfolding lines_fit fold
lines_fit-fold col [] h k = refl
lines_fit-fold col (c ∷ p) h k =
    let no_lf : (c == 10) ≡ false = ground (arith, h.0) in
    let no_cr : (c == 13) ≡ false = ground (arith, h.0) in
    elim (Bool-cases (col == 76)) [
      | inl full ↦ rw (full, no_lf, no_cr) (lines_fit-fold 1 p h.1 (omega arith))
      | inr room ↦
          let fits : leb 76 col ≡ false = ground (arith, k, room) in
          rw (room, no_lf, no_cr, fits) (lines_fit-fold (suc col) p h.1 (ground (arith, k, room)))
    ]

pub write_mime_base64-fold : (b : Bytes) → write_mime_base64 b ≡ fold 0 (base64 b)
unfolding write_mime_base64
write_mime_base64-fold b =
    ap written (write_lines-fold (length (base64 b)) 0 (base64 b) (omega arith) (omega arith))

-- Bytes written by writeMIMEBase64 are read back by a decoder that skips line ends, and no line is
-- longer than 76.
pub write_mime_base64-reads :
    (b : Bytes)
    → All (λ c. c < 256) b
    → (base64_decode (strip (write_mime_base64 b)) ≡ b) × (lines_fit 0 (write_mime_base64 b) ≡ true)
write_mime_base64-reads b h =
    let letters = base64-IsAlphabet b h in
    (
      rw (write_mime_base64-fold b, strip-fold 0 (base64 b) letters) (base64_decode-base64 b h),
      rw (write_mime_base64-fold b) (lines_fit-fold 0 (base64 b) letters (omega arith)),
    )
