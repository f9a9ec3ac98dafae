-- ===== src/MessageId.antt =====
-- utils.go: the Message-ID that a message without one is given. The random bytes are a parameter.
mod Tests
pub mod Safety
use gsmail.Prelude.{
  ℕ, ◌+◌, Bool, true, false, ◌&&◌, ◌||◌, Option, none, some, List, [], ◌∷◌, ◌++◌, length, ltb, leb,
  ◌==◌, if◌then◌else◌,
}
use gsmail.Prelude.Bytes.{Bytes, codes}
use gsmail.Text.Utf8.{runes, between}
use gsmail.Text.Search.{trim_space, cut, cut_last}
use gsmail.Header.{any}
use gsmail.Identity.{hex_encode}

abbrev pub fallback : Bytes
fallback = codes "gsmail.local"

unfoldable pub is_addr_separator : ℕ → Bool
is_addr_separator r = r == b' ' || r == b'\t' || r == b'\r' || r == b'\n' || ltb r 0x20 || r == 0x7f

-- the loop of isSafeMessageIDDomain
unfoldable pub all_ldh : Bytes → Bool
all_ldh [] = true
all_ldh (c ∷ s) =
    (between b'a' b'z' c || between b'A' b'Z' c || between b'0' b'9' c || c == b'.' || c == b'-')
    && all_ldh s

unfoldable pub is_safe_message_id_domain : Bytes → Bool
unfolding all_ldh
is_safe_message_id_domain domain =
    if length domain == 0 || ltb 255 (length domain) then false else all_ldh domain

-- what follows the last @; the empty domain is not safe either
domain_after : Option (Bytes × Bytes) → Bytes
domain_after none = fallback
domain_after (some (local, domain)) = if is_safe_message_id_domain domain then domain else fallback

-- `s` is the text to scan for the domain
pub scanned : Bytes → Bytes
unfolding domain_after cut_last
scanned s = domain_after (cut_last b'@' s)

-- what follows the last <, up to the first > there
angle_addr : Option (Bytes × Bytes) → Bytes
unfolding scanned
angle_addr none = fallback
angle_addr (some ([], after)) = fallback
angle_addr (some (c ∷ s, after)) = scanned (c ∷ s)

bare_or_angle : Bytes → Option (Bytes × Bytes) → Bytes
unfolding angle_addr scanned any is_addr_separator
bare_or_angle s (some (name, rest)) = angle_addr (cut b'>' rest)
bare_or_angle s none = if any is_addr_separator (runes s) then fallback else scanned s

unfoldable pub message_id_domain : Bytes → Bytes
unfolding bare_or_angle cut_last
message_id_domain from = let s = trim_space from in bare_or_angle s (cut_last b'<' s)

-- `random` is the result of rand.Read
unfoldable pub generate_message_id : Bytes → Bytes → Bytes
unfolding message_id_domain hex_encode
generate_message_id random from =
    b'<' ∷ (hex_encode random ++ b'@' ∷ (message_id_domain from ++ b'>' ∷ []))
