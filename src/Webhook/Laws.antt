-- ===== src/Webhook/Laws.antt =====
-- webhook.go: what a verifier that accepts a request has checked.
use mathlib.Core.Path.{subst}
use gsmail.Prelude.{
  ℕ, suc, ◌≤◌, ◌≡◌, ◌≢◌, refl, sym, ap, ◌∙◌, ◌⊎◌, ◌↔◌, inl, inr, Bool, true, false, not, ◌&&◌,
  Option, none, some, [], ◌∷◌, ◌++◌, drop, ◌==◌, arith, Bool-cases, Option-cases,
}
use gsmail.Prelude.Int.{ℤ, pos, negsuc}
use gsmail.Prelude.Bytes.{Bytes, bytes_eq, bytes_eq_sound, codes}
use gsmail.Errors.{
  Error, sentinel, err_signature_missing, err_signature_invalid, err_signing_key_missing,
}
use gsmail.Text.Search.{has_prefix, cut}
use gsmail.Identity.{is_empty}
use gsmail.Webhook.{
  Crypto, MailgunSignature, MailgunVerifier, tolerance, within_tolerance, checked, refuse_unless,
  mailgun_verify, postmark_verify,
}

-- Not further from now than the window, in either direction; or as far in the future as 64 bits hold.
abbrev pub IsRecent : ℤ → ℕ → Type 0
IsRecent (pos d) window = d ≤ window
IsRecent (negsuc n) window = (n ≡ 9223372036854775807) ⊎ (suc n ≤ window)

-- A timestamp is within the window exactly where its distance from now is at most the window, in
-- either direction, or where it is so far in the future that time.Since is the least duration of 64
-- bits.
pub within_tolerance_iff :
    (delta : ℤ) (window : ℕ) → (within_tolerance delta window ≡ true) ↔ IsRecent delta window
within_tolerance_iff (pos d) window = ground arith
within_tolerance_iff (negsuc n) window = elim (Bool-cases (n == 9223372036854775807)) [
  | inl least ↦ rw least (λ h. inl (ground (arith, least)), λ h. refl)
  | inr other ↦ rw other (λ h. inr (ground (arith, h)), λ h. ground (arith, h, other))
]

module _ {ℓ} {A : Type ℓ} where
  checked_value :
      (e : Error) (o : Option A) (f : A → Option Error)
      → checked e o f ≡ none
      → (a : A) × (o ≡ some a) × (f a ≡ none)
  checked_value e none f h = cc
  checked_value e (some a) f h = (a, refl, h)

passed :
    (e : Error) (b : Bool) (rest : Option Error)
    → refuse_unless e b rest ≡ none
    → (b ≡ true) × (rest ≡ none)
passed e true rest h = (refl, h)
passed e false rest h = cc

not_empty : (s : Bytes) → not (is_empty s) ≡ true → s ≢ []
not_empty s h e = absurd (false≢true (sym (ap (λ (z : Bytes). not (is_empty z)) e) ∙ h))
  where
    false≢true : false ≢ true
    false≢true p = cc

both : (a b : Bool) → (a && b) ≡ true → (a ≡ true) × (b ≡ true)
both true b h = (refl, h)
both false b h = cc

-- the text around the first separator, and it, are the text
abbrev IsCut : ℕ → Bytes → Option (Bytes × Bytes) → Type 0
IsCut c s none = Unit
IsCut c s (some p) = s ≡ p.0 ++ c ∷ p.1

cut-IsCut : (c : ℕ) (s : Bytes) → IsCut c s (cut c s)
unfolding cut
cut-IsCut c [] = tt
cut-IsCut c (d ∷ s) = elim (Bool-cases (d == c)) [
  | inl same ↦ rw same (ap (λ x. x ∷ s) (ground (arith, same)))
  | inr other ↦ elim (Option-cases (cut c s)) [
    | inl e ↦ rw (other, e) tt
    | inr e ↦ rw (other, e.1) (ap (λ z. d ∷ z) (subst (IsCut c s) e.1 (cut-IsCut c s)))
  ]
]

module _ (crypto : Crypto) where
  -- A signature that the holder of the key made, not long ago.
  abbrev pub IsSigned : (Bytes → Option MailgunSignature) → MailgunVerifier → Bytes → Type 0
  IsSigned parse v body =
      (v.signing_key ≢ [])
      × ((sig : MailgunSignature) × (delta : ℤ) × (parse body ≡ some sig)
          × (crypto.since sig.timestamp ≡ some delta)
          × IsRecent delta (tolerance v.tolerance_of)
          × (crypto.hex_decode sig.signature
              ≡ some (crypto.hmac v.signing_key (sig.timestamp ++ sig.token))))

  -- Where MailgunVerifier accepts a body, it has a signing key that is not empty, and the signature
  -- in the body decodes to the HMAC, under that key, of its timestamp and token, and the timestamp
  -- is recent by the tolerance, or so far in the future that 64 bits do not hold the distance.
  pub mailgun_verify-IsSigned :
      (parse : Bytes → Option MailgunSignature) (v : MailgunVerifier) (body : Bytes)
      → mailgun_verify crypto parse v body ≡ none
      → IsSigned parse v body
  unfolding mailgun_verify
  mailgun_verify-IsSigned parse v body h =
      let (key, h1) = passed _ _ _ h in
      let (sig, read, h2) = checked_value _ (parse body) _ h1 in
      let (present, h3) = passed _ _ _ h2 in
      let (delta, timed, h4) = checked_value _ (crypto.since sig.timestamp) _ h3 in
      let (recent, h5) = passed _ _ _ h4 in
      let (got, decoded, h6) = checked_value _ (crypto.hex_decode sig.signature) _ h5 in
      let (equal, h7) = passed _ _ _ h6 in
      (
        not_empty v.signing_key key,
        (
          sig,
          delta,
          read,
          timed,
          (within_tolerance_iff delta (tolerance v.tolerance_of)).0 recent,
          decoded ∙ ap (λ (z : Bytes). some z) (sym (bytes_eq_sound _ got equal)),
        ),
      )

  -- HTTP Basic credentials that are the configured ones.
  abbrev pub IsBasic : Bytes → Bytes → Bytes → Type 0
  IsBasic username password raw =
      (has_prefix raw (codes "Basic ") ≡ true)
      × (crypto.base64_decode (drop 6 raw) ≡ some (username ++ b':' ∷ password))

  same_pair :
      (username password decoded : Bytes) (pair : Bytes × Bytes)
      → cut b':' decoded ≡ some pair
      → (bytes_eq pair.0 username && bytes_eq pair.1 password) ≡ true
      → decoded ≡ username ++ b':' ∷ password
  same_pair username password decoded pair e h =
      let (user, pass) = both (bytes_eq pair.0 username) (bytes_eq pair.1 password) h in
      subst (IsCut b':' decoded) e (cut-IsCut b':' decoded)
      ∙ ap (λ (z : Bytes). z ++ b':' ∷ pair.1) (bytes_eq_sound pair.0 username user)
      ∙ ap (λ (z : Bytes). username ++ b':' ∷ z) (bytes_eq_sound pair.1 password pass)

  -- Where PostmarkVerifier accepts a request, its Authorization header is of the Basic scheme and
  -- decodes to the configured user name and password with a colon between them.
  pub postmark_verify-IsBasic :
      (username password raw : Bytes)
      → postmark_verify crypto username password raw ≡ none
      → IsBasic username password raw
  unfolding postmark_verify
  postmark_verify-IsBasic username password raw h =
      let invalid = sentinel err_signature_invalid in
      let (configured, h1) =
        passed (sentinel err_signing_key_missing) (not (is_empty username && is_empty password)) _
          h in
      let (present, h2) = passed (sentinel err_signature_missing) (not (is_empty raw)) _ h1 in
      let (basic, h3) = passed invalid (has_prefix raw (codes "Basic ")) _ h2 in
      let (decoded, read, h4) = checked_value invalid (crypto.base64_decode (drop 6 raw)) _ h3 in
      let (pair, halves, h5) = checked_value invalid (cut b':' decoded) _ h4 in
      let (equal, h6) =
        passed invalid (bytes_eq pair.0 username && bytes_eq pair.1 password) none h5 in
      (
        basic,
        read ∙ ap (λ (z : Bytes). some z) (same_pair username password decoded pair halves equal),
      )
