-- ===== src/Webhook/Tests.antt =====
-- webhook.go: the theorems on verifiers at concrete requests.
use gsmail.Prelude.{ℕ, ◌≤◌, ◌≡◌, ◌↔◌, refl, true, none, some, List, [], ◌∷◌, ◌++◌, length, arith}
use gsmail.Prelude.Int.{pos, negsuc}
use gsmail.Prelude.Bytes.{Bytes, bytes_eq, codes}
use gsmail.Text.Search.{has_prefix, cut}
use gsmail.Webhook.{
  Crypto, MailgunSignature, MailgunVerifier, within_tolerance, mailgun_verify, postmark_verify,
  cached_cert, store_cert, max_cached_signing_certs,
}
use gsmail.Webhook.Laws.{
  IsRecent, IsSigned, IsBasic, within_tolerance_iff, mailgun_verify-IsSigned,
  postmark_verify-IsBasic,
}
use gsmail.Webhook.Cache.{cached-store_cert}

-- a stand-in whose decoders keep the text, and whose HMAC is the key before the text
abbrev crypto : Crypto
crypto = record {
  since = λ s. some (pos 7);
  hex_decode = λ s. some s;
  base64_decode = λ s. some s;
  hmac = λ key s. key ++ s;
  verify_asn1 = λ key s sig. bytes_eq s sig;
}

abbrev event : MailgunSignature
event = record { timestamp = codes "10"; token = codes "t"; signature = codes "key10t" }

abbrev verifier : MailgunVerifier
verifier = record { signing_key = codes "key"; tolerance_of = pos 0 }

accepted : mailgun_verify crypto (λ body. some event) verifier [] ≡ none
unfolding mailgun_verify bytes_eq
accepted = refl

mailgun_verify-IsSigned_example : IsSigned crypto (λ body. some event) verifier []
mailgun_verify-IsSigned_example =
    mailgun_verify-IsSigned crypto (λ body. some event) verifier [] accepted

basic : postmark_verify crypto (codes "u") (codes "p") (codes "Basic u:p") ≡ none
unfolding postmark_verify has_prefix cut bytes_eq
basic = refl

postmark_verify-IsBasic_example : IsBasic crypto (codes "u") (codes "p") (codes "Basic u:p")
postmark_verify-IsBasic_example =
    postmark_verify-IsBasic crypto (codes "u") (codes "p") (codes "Basic u:p") basic

within_tolerance_iff_example :
    (within_tolerance (negsuc 9223372036854775807) 5 ≡ true)
    ↔ IsRecent (negsuc 9223372036854775807) 5
within_tolerance_iff_example = within_tolerance_iff (negsuc 9223372036854775807) 5

abbrev one_cert : List (Bytes × ℕ)
one_cert = (codes "https://sns.eu-west-1.amazonaws.com/a.pem", 1) ∷ []

cached-store_cert_example :
    (cached_cert (codes "b") (store_cert (codes "b") 2 one_cert) ≡ some 2)
    × (length (store_cert (codes "b") 2 one_cert) ≤ max_cached_signing_certs)
cached-store_cert_example = cached-store_cert (codes "b") 2 one_cert (omega arith)
