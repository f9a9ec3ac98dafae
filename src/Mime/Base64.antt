-- ===== src/Mime/Base64.antt =====
-- utils.go: reading back base64.
use gsmail.Prelude.{
  ℕ, ◌+◌, ◌-◌, ◌*◌, ◌/◌, ◌%◌, ◌<◌, ◌≤◌, ◌≡◌, ◌≢◌, refl, ap, false, [], ◌∷◌, leb, ◌==◌, All, arith,
  if◌then◌else◌,
}
use gsmail.Prelude.Bytes.{Bytes}
use gsmail.Mime.{sextet, base64}

-- the number that a character of the alphabet stands for
abbrev pub sextet_value : ℕ → ℕ
sextet_value c =
    if leb b'a' c
    then c - b'a' + 26
    else if leb b'A' c
    then c - b'A'
    else if leb b'0' c
    then c - b'0' + 52
    else if c == b'+'
    then 62
    else 63

-- what a receiver decodes: groups of four, the last one padded
unfoldable pub base64_decode : Bytes → Bytes
base64_decode (w ∷ x ∷ y ∷ z ∷ s) =
    let rest = base64_decode s in
    let a = sextet_value w * 4 + sextet_value x / 16 in
    let b = sextet_value x % 16 * 16 + sextet_value y / 4 in
    let c = sextet_value y % 4 * 64 + sextet_value z in
    if y == b'=' then a ∷ [] else if z == b'=' then a ∷ b ∷ [] else a ∷ b ∷ c ∷ rest
base64_decode _ = []

-- not a control character, and not the hyphen that begins a boundary
abbrev pub IsAlphabet : ℕ → Type 0
IsAlphabet c = (b'+' ≤ c) × (c ≤ b'z') × (c ≢ b'-')

sextet_lem :
    (n : ℕ)
    → n < 64
    → (sextet_value (sextet n) ≡ n) × ((sextet n == b'=') ≡ false) × IsAlphabet (sextet n)
sextet_lem n h = ground arith

byte_first : (a b : ℕ) → b < 256 → a / 4 * 4 + (a % 4 * 16 + b / 16) / 16 ≡ a
byte_first a b h = omega (arith, h)

byte_second :
    (a b c : ℕ)
    → b < 256
    → c < 256
    → (a % 4 * 16 + b / 16) % 16 * 16 + (b % 16 * 4 + c / 64) / 4 ≡ b
byte_second a b c hb hc = omega (arith, hb, hc)

byte_last : (b c : ℕ) → c < 256 → (b % 16 * 4 + c / 64) % 4 * 64 + c % 64 ≡ c
byte_last b c h = omega (arith, h)

padded_second : (a b : ℕ) → b < 256 → (a % 4 * 16 + b / 16) % 16 * 16 + b % 16 * 4 / 4 ≡ b
padded_second a b h = omega (arith, h)

-- Base64 is read back.
pub base64_decode-base64 : (s : Bytes) → All (λ c. c < 256) s → base64_decode (base64 s) ≡ s
unfolding base64 base64_decode
base64_decode-base64 [] h = refl
base64_decode-base64 (a ∷ []) h =
    let p = sextet_lem (a / 4) (omega (arith, h.0)) in
    let q = sextet_lem (a % 4 * 16) (omega arith) in
    rw (p.0, q.0) (ap (λ x. x ∷ []) (omega (arith)))
base64_decode-base64 (a ∷ b ∷ []) h =
    let p = sextet_lem (a / 4) (omega (arith, h.0)) in
    let q = sextet_lem (a % 4 * 16 + b / 16) (omega (arith, h.1.0)) in
    let r = sextet_lem (b % 16 * 4) (omega arith) in
    rw (p.0, q.0, r.1, r.0) (rw (byte_first a b h.1.0, padded_second a b h.1.0) refl)
base64_decode-base64 (a ∷ b ∷ c ∷ s) h =
    let p = sextet_lem (a / 4) (omega (arith, h.0)) in
    let q = sextet_lem (a % 4 * 16 + b / 16) (omega (arith, h.1.0)) in
    let r = sextet_lem (b % 16 * 4 + c / 64) (omega (arith, h.1.1.0)) in
    let t = sextet_lem (c % 64) (omega arith) in
    rw (p.0, q.0, r.1, r.0, t.1, t.0, base64_decode-base64 s h.1.1.1)
      (rw (byte_first a b h.1.0, byte_second a b c h.1.0 h.1.1.0, byte_last b c h.1.1.0) refl)

-- The characters of base64 are those of its alphabet, and no control characters.
pub base64-IsAlphabet : (s : Bytes) → All (λ c. c < 256) s → All IsAlphabet (base64 s)
unfolding base64
base64-IsAlphabet [] h = tt
base64-IsAlphabet (a ∷ []) h = (
  (sextet_lem (a / 4) (omega (arith, h.0))).2,
  ((sextet_lem (a % 4 * 16) (omega arith)).2, ground arith),
)
base64-IsAlphabet (a ∷ b ∷ []) h = (
  (sextet_lem (a / 4) (omega (arith, h.0))).2,
  (
    (sextet_lem (a % 4 * 16 + b / 16) (omega (arith, h.1.0))).2,
    ((sextet_lem (b % 16 * 4) (omega arith)).2, ground arith),
  ),
)
base64-IsAlphabet (a ∷ b ∷ c ∷ s) h = (
  (sextet_lem (a / 4) (omega (arith, h.0))).2,
  (
    (sextet_lem (a % 4 * 16 + b / 16) (omega (arith, h.1.0))).2,
    (
      (sextet_lem (b % 16 * 4 + c / 64) (omega (arith, h.1.1.0))).2,
      ((sextet_lem (c % 64) (omega arith)).2, base64-IsAlphabet s h.1.1.1),
    ),
  ),
)
