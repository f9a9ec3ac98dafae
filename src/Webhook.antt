-- ===== src/Webhook.antt =====
-- webhook.go: who sent a webhook. The standard library's clock, decoders, JSON parser and signatures are
-- parameters.
mod Tests
pub mod Laws
pub mod Cache
use gsmail.Prelude.{
  ℕ, suc, Bool, true, false, not, ◌&&◌, ◌||◌, Option, none, some, List, [], ◌∷◌, ◌++◌, length, drop,
  ltb, leb, ◌==◌, if◌then◌else◌,
}
use gsmail.Prelude.Int.{ℤ, pos, negsuc}
use gsmail.Prelude.Bytes.{Bytes, bytes_eq, codes}
use gsmail.Errors.{
  Error, sentinel, err_signature_missing, err_signature_invalid, err_signature_expired,
  err_signing_key_missing, errorf, text,
}
use gsmail.Text.Search.{has_prefix, cut, trim_space}
use gsmail.Identity.{is_empty, field}

-- five minutes, in nanoseconds
abbrev pub default_webhook_tolerance : ℕ
default_webhook_tolerance = 300000000000

-- A window that is positive, or the default.
abbrev pub tolerance : ℤ → ℕ
tolerance (negsuc n) = default_webhook_tolerance
tolerance (pos d) = if d == 0 then default_webhook_tolerance else d

-- `-delta` of a negative duration of 64 bits; the least one, negsuc (2^63 - 1), is its own negation
abbrev pub negated : ℕ → ℤ
negated n = if n == 9223372036854775807 then negsuc n else pos (suc n)

abbrev pub at_most : ℕ → ℤ → Bool
at_most window (pos d) = leb d window
at_most window (negsuc d) = true

-- `delta` is time.Since of the timestamp
abbrev pub within_tolerance : ℤ → ℕ → Bool
within_tolerance (pos d) window = at_most window (pos d)
within_tolerance (negsuc n) window = at_most window (negated n)

-- The value, or the error without one.
abbrev pub checked {ℓ} : {A : Type ℓ} → Error → Option A → (A → Option Error) → Option Error
checked e none f = some e
checked e (some a) f = f a

-- strconv.ParseInt with time.Since of that second, the decoders of hex and base64, HMAC-SHA256, and
-- ecdsa.VerifyASN1 on the SHA-256 of a text; each decoder gives a value or nothing.
pub record Crypto : Type 0 where
  pub since : Bytes → Option ℤ
  pub hex_decode : Bytes → Option Bytes
  pub base64_decode : Bytes → Option Bytes
  pub hmac : Bytes → Bytes → Bytes
  pub verify_asn1 : Bytes → Bytes → Bytes → Bool

pub record MailgunSignature : Type 0 where
  pub timestamp : Bytes
  pub token : Bytes
  pub signature : Bytes

pub record MailgunVerifier : Type 0 where
  pub signing_key : Bytes
  pub tolerance_of : ℤ

abbrev pub refuse_unless : Error → Bool → Option Error → Option Error
refuse_unless e true rest = rest
refuse_unless e false rest = some e

module _ (crypto : Crypto) where
  -- json.Unmarshal of the body is `parse`.
  unfoldable pub mailgun_verify :
      (Bytes → Option MailgunSignature) → MailgunVerifier → Bytes → Option Error
  mailgun_verify parse v body =
      refuse_unless (sentinel err_signing_key_missing) (not (is_empty v.signing_key)) (
        checked (errorf (text [])) (parse body) λ sig.
          refuse_unless (sentinel err_signature_missing)
            (not (is_empty sig.signature || is_empty sig.timestamp || is_empty sig.token))
            (checked (errorf (text [])) (crypto.since sig.timestamp) λ delta.
              refuse_unless (sentinel err_signature_expired)
                (within_tolerance delta (tolerance v.tolerance_of))
                (checked (sentinel err_signature_invalid) (crypto.hex_decode sig.signature) λ got.
                  refuse_unless (sentinel err_signature_invalid)
                    (bytes_eq (crypto.hmac v.signing_key (sig.timestamp ++ sig.token)) got) none)))

  -- `key` is the result of publicKey, and the header fields are those of the request.
  unfoldable pub sendgrid_verify : Option Bytes → Error → ℤ → Bytes → Bytes → Bytes → Option Error
  sendgrid_verify key key_error window signature timestamp body = checked key_error key λ k.
      refuse_unless (sentinel err_signature_missing)
        (not (is_empty signature || is_empty timestamp))
        (checked (errorf (text [])) (crypto.since timestamp) λ delta.
          refuse_unless (sentinel err_signature_expired) (within_tolerance delta (tolerance window))
            (checked (sentinel err_signature_invalid) (crypto.base64_decode signature) λ sig.
              refuse_unless (sentinel err_signature_invalid)
                (crypto.verify_asn1 k (timestamp ++ body) sig) none))

  -- the Authorization header `raw`, after the test for a configured pair
  unfoldable pub postmark_verify : Bytes → Bytes → Bytes → Option Error
  unfolding has_prefix cut
  postmark_verify username password raw =
      refuse_unless (sentinel err_signing_key_missing)
        (not (is_empty username && is_empty password))
        (refuse_unless (sentinel err_signature_missing) (not (is_empty raw)) (
          refuse_unless (sentinel err_signature_invalid) (has_prefix raw (codes "Basic ")) (
            checked (sentinel err_signature_invalid) (crypto.base64_decode (drop 6 raw)) λ decoded.
              checked (sentinel err_signature_invalid) (cut b':' decoded) λ pair.
                refuse_unless (sentinel err_signature_invalid)
                  (bytes_eq pair.0 username && bytes_eq pair.1 password) none)))

abbrev pub max_cached_signing_certs : ℕ
max_cached_signing_certs = 32

-- The cache of certificates, in the order in which a loop visits it; the first entry is evicted.
abbrev pub cached_cert {ℓ} : {C : Type ℓ} → Bytes → List (Bytes × C) → Option C
cached_cert url [] = none
cached_cert url ((k, c) ∷ certs) = if bytes_eq k url then some c else cached_cert url certs

unfoldable pub put_cert {ℓ} : {C : Type ℓ} → Bytes → C → List (Bytes × C) → List (Bytes × C)
put_cert url cert [] = (url, cert) ∷ []
put_cert url cert ((k, c) ∷ certs) =
    let rest = put_cert url cert certs in
    if bytes_eq k url then (k, cert) ∷ certs else (k, c) ∷ rest

abbrev pub evicted {ℓ} : {C : Type ℓ} → Option C → List (Bytes × C) → List (Bytes × C)
evicted (some c) certs = certs
evicted none [] = []
evicted none (entry ∷ certs) =
    if leb max_cached_signing_certs (length (entry ∷ certs)) then certs else entry ∷ certs

unfoldable pub store_cert {ℓ} : {C : Type ℓ} → Bytes → C → List (Bytes × C) → List (Bytes × C)
unfolding put_cert
store_cert url cert certs = put_cert url cert (evicted (cached_cert url certs) certs)

abbrev pub sns_signable_keys : List Bytes
sns_signable_keys =
    codes "Message"
    ∷ codes "MessageId"
    ∷ codes "Subject"
    ∷ codes "SubscribeURL"
    ∷ codes "Timestamp"
    ∷ codes "Token"
    ∷ codes "TopicArn"
    ∷ codes "Type"
    ∷ []

abbrev pub canonical_field : Bytes → Option Bytes → Bytes
canonical_field name none = []
canonical_field name (some s) = name ++ 10 ∷ (s ++ 10 ∷ [])

-- the loop over the names; `raw` has the fields of the payload that are strings
unfoldable pub canonical_from : List Bytes → List (Bytes × Bytes) → Bytes
canonical_from [] raw = []
canonical_from (name ∷ names) raw =
    canonical_field name (field name raw) ++ canonical_from names raw

unfoldable pub sns_canonical_string : List (Bytes × Bytes) → Bytes
unfolding canonical_from
sns_canonical_string raw = canonical_from sns_signable_keys raw
