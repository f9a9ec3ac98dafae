-- ===== src/MessageId/Safety.antt =====
-- utils.go: what can stand in a generated Message-ID.
use gsmail.Prelude.{
  ℕ, ◌+◌, ◌/◌, ◌%◌, ◌≤◌, ◌<◌, ◌≡◌, refl, ◌⊎◌, inl, inr, true, Option, none, some, [], ◌∷◌, ◌++◌,
  length, All, All-append, All-map, arith, Bool-cases,
}
use gsmail.Prelude.Bytes.{Bytes}
use gsmail.Header.{any}
use gsmail.Header.Sanitize.{IsLegal}
use gsmail.Text.Utf8.{runes}
use gsmail.Text.Search.{trim_space, cut, cut_last}
use gsmail.Identity.{hex_encode, hex_lower}
use gsmail.MessageId.{
  is_addr_separator, all_ldh, is_safe_message_id_domain, domain_after, angle_addr, bare_or_angle,
  message_id_domain, generate_message_id,
}

-- a letter, a digit, a dot or a hyphen
abbrev pub IsLdh : ℕ → Type 0
IsLdh c =
    ((b'a' ≤ c) × (c ≤ b'z'))
    ⊎ ((b'A' ≤ c) × (c ≤ b'Z'))
    ⊎ ((b'0' ≤ c) × (c ≤ b'9'))
    ⊎ (c ≡ b'.')
    ⊎ (c ≡ b'-')

abbrev pub IsSafe : Bytes → Type 0
IsSafe s = (1 ≤ length s) × (length s ≤ 255) × All IsLdh s

all_ldh-All : (s : Bytes) → all_ldh s ≡ true → All IsLdh s
unfolding all_ldh
all_ldh-All [] h = tt
all_ldh-All (c ∷ s) h = ground (arith, all_ldh-All s)

domain_after-IsSafe : (o : Option (Bytes × Bytes)) → IsSafe (domain_after o)
unfolding domain_after is_safe_message_id_domain
domain_after-IsSafe none = ground arith
domain_after-IsSafe (some (local, domain)) = ground (arith, all_ldh-All domain)

angle_addr-IsSafe : (o : Option (Bytes × Bytes)) → IsSafe (angle_addr o)
unfolding angle_addr
angle_addr-IsSafe none = domain_after-IsSafe none
angle_addr-IsSafe (some ([], after)) = domain_after-IsSafe none
angle_addr-IsSafe (some (c ∷ s, after)) = domain_after-IsSafe (cut_last b'@' (c ∷ s))

bare_or_angle-IsSafe : (s : Bytes) (o : Option (Bytes × Bytes)) → IsSafe (bare_or_angle s o)
unfolding bare_or_angle
bare_or_angle-IsSafe s (some (name, rest)) = angle_addr-IsSafe (cut b'>' rest)
bare_or_angle-IsSafe s none = elim (Bool-cases (any is_addr_separator (runes s))) [
  | inl bad ↦ rw bad (domain_after-IsSafe none)
  | inr good ↦ rw good (domain_after-IsSafe (cut_last b'@' s))
]

-- a digit of a hexadecimal number in lower case
abbrev pub IsHex : ℕ → Type 0
IsHex c = ((b'0' ≤ c) × (c ≤ b'9')) ⊎ ((b'a' ≤ c) × (c ≤ b'f'))

hex_lower-IsHex : (n : ℕ) → n < 16 → IsHex (hex_lower n)
hex_lower-IsHex n h = ground arith

hex_encode-IsHex :
    (s : Bytes)
    → All (λ c. c < 256) s
    → All IsHex (hex_encode s) × (length (hex_encode s) ≡ length s + length s)
unfolding hex_encode
hex_encode-IsHex [] h = (tt, refl)
hex_encode-IsHex (c ∷ s) (hc, hs) =
    let (digits, count) = hex_encode-IsHex s hs in
    (
      (hex_lower-IsHex (c / 16) (omega arith), (hex_lower-IsHex (c % 16) (omega arith), digits)),
      omega (arith, count),
    )

-- Whatever the From of the message, a generated Message-ID is an angle bracket, two hexadecimal
-- digits for each random byte, an @, a domain of at most 255 letters, digits, dots and hyphens that
-- is not empty, and the closing bracket.
pub generate_message_id-IsSafe :
    (random from : Bytes)
    → All (λ c. c < 256) random
    → (left domain : Bytes) × (generate_message_id random from
        ≡ b'<' ∷ (left ++ b'@' ∷ (domain ++ b'>' ∷ [])))
      × All IsHex left
      × (length left ≡ length random + length random)
      × IsSafe domain
unfolding generate_message_id message_id_domain
generate_message_id-IsSafe random from h =
    let hex = hex_encode-IsHex random h in
    (
      hex_encode random,
      message_id_domain from,
      refl,
      hex.0,
      hex.1,
      bare_or_angle-IsSafe (trim_space from) (cut_last b'<' (trim_space from)),
    )

-- Nothing of a generated Message-ID ends a header field or is not ASCII.
pub generate_message_id-IsLegal :
    (random from : Bytes)
    → All (λ c. c < 256) random
    → All IsLegal (generate_message_id random from)
unfolding generate_message_id message_id_domain
generate_message_id-IsLegal random from h =
    let safe = bare_or_angle-IsSafe (trim_space from) (cut_last b'<' (trim_space from)) in
    (
      ground arith,
      All-append IsLegal (hex_encode random) _
          (All-map (λ c p. ground (arith, p)) (hex_encode random) (hex_encode-IsHex random h).0)
          (
            ground arith,
            All-append IsLegal (message_id_domain from) _
                (All-map (λ c p. ground (arith, p)) (message_id_domain from) safe.2) (ground arith),
          ),
    )
