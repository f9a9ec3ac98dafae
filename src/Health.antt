-- ===== src/Health.antt =====
-- health.go, dkim.go: the DNS checks of a domain. The resolver, and the public key of a private key, are
-- parameters; what errors say is kept, since the results carry it.
mod Tests
pub mod Checks
pub mod Collect
pub mod Order
use gsmail.Prelude.{
  ℕ, Bool, true, false, ◌&&◌, ◌||◌, not, Option, none, some, List, [], ◌∷◌, ◌++◌, map, ◌==◌,
  if◌then◌else◌,
}
use gsmail.Prelude.Bytes.{Bytes, bytes_eq, codes}
use gsmail.Text.Utf8.{runes, encode_rune}
use gsmail.Text.Search.{Unicode, to_lower, to_upper, trim_space, has_prefix, cut, split}
use gsmail.Email.{assign}
use gsmail.Identity.{field, decimal}

pub record HealthResult : Type 0 where
  pub found : Bool
  pub valid : Bool
  pub entry : Bytes
  pub details : Bytes
  pub error : Bytes

pub record Mx : Type 0 where
  pub host : Bytes
  pub pref : ℕ

-- What a lookup returns: an answer, or an error, of which isNotFound holds or not, with its text.
pub data Lookup {ℓ} (A : Type ℓ) : Type ℓ where
  answer : A → Lookup A
  lookup_error : Bool → Bytes → Lookup A

pub record Resolver : Type 0 where
  pub lookup_mx : Bytes → Lookup (List Mx)
  pub lookup_txt : Bytes → Lookup (List Bytes)

abbrev pub empty_result : HealthResult
empty_result = record { found = false; valid = false; entry = []; details = []; error = [] }

abbrev pub not_found : Bytes → HealthResult
not_found details = record empty_result { details = details }

abbrev pub lookup_failure : Bytes → Bytes → Bool → HealthResult
lookup_failure details message nothing =
    if nothing then not_found details else record empty_result { error = message }

abbrev pub valid_entry : Bytes → HealthResult
valid_entry entry = record empty_result { found = true; valid = true; entry = entry }

abbrev pub invalid_entry : Bytes → Bytes → HealthResult
invalid_entry entry details = record empty_result { found = true; entry = entry; details = details }

-- strings.Join
unfoldable pub join : Bytes → List Bytes → Bytes
join sep [] = []
join sep (s ∷ []) = s
join sep (s ∷ t ∷ rest) = s ++ (sep ++ join sep (t ∷ rest))

-- `fmt.Sprintf("%s (%d)", mx.Host, mx.Pref)`
unfoldable pub mx_text : Mx → Bytes
unfolding decimal
mx_text mx = mx.host ++ (codes " (" ++ (decimal 5 mx.pref ++ codes ")"))

abbrev pub no_mx : Bytes
no_mx = codes "No MX records found"

abbrev pub mx_result : Lookup (List Mx) → HealthResult
mx_result (lookup_error nothing message) = lookup_failure no_mx message nothing
mx_result (answer []) = not_found no_mx
mx_result (answer (mx ∷ mxs)) = valid_entry (join (codes ", ") (map mx_text (mx ∷ mxs)))

-- One record is valid, none or several are not.
abbrev pub single : Bytes → Bytes → List Bytes → HealthResult
single none_found several [] = not_found none_found
single none_found several (r ∷ []) = valid_entry r
single none_found several (r ∷ s ∷ rest) = invalid_entry (join (codes " | ") (r ∷ s ∷ rest)) several

abbrev pub several_details : Bytes → Bytes
several_details kind = codes "Multiple " ++ (kind ++ codes " records found (invalid configuration)")

module _ (u : Unicode) where
  unfoldable pub spf_records : List Bytes → List Bytes
  spf_records [] = []
  spf_records (t ∷ txts) =
      let rest = spf_records txts in
      if has_prefix (to_lower u (trim_space t)) (codes "v=spf1") then trim_space t ∷ rest else rest

  unfoldable pub dmarc_records : List Bytes → List Bytes
  dmarc_records [] = []
  dmarc_records (t ∷ txts) =
      let rest = dmarc_records txts in
      if has_prefix (to_upper u (trim_space t)) (codes "V=DMARC1") then t ∷ rest else rest

  abbrev pub spf_result : Lookup (List Bytes) → HealthResult
  spf_result (lookup_error nothing message) =
      lookup_failure (codes "No TXT records found") message nothing
  spf_result (answer txts) =
      single (codes "No SPF record found") (several_details (codes "SPF")) (spf_records txts)

  abbrev pub dmarc_result : Lookup (List Bytes) → HealthResult
  dmarc_result (lookup_error nothing message) =
      lookup_failure (codes "No DMARC record found") message nothing
  dmarc_result (answer txts) =
      single (codes "No DMARC record found") (several_details (codes "DMARC")) (dmarc_records txts)

-- the part before the first = and what follows it, as a tag and its value
abbrev pub assign_tag : Option (Bytes × Bytes) → List (Bytes × Bytes) → List (Bytes × Bytes)
assign_tag none tags = tags
assign_tag (some (k, v)) tags = assign (trim_space k) (trim_space v) tags

-- the loop over the parts of a record, with the tags so far; an empty part has no =
unfoldable pub tags_from : List Bytes → List (Bytes × Bytes) → List (Bytes × Bytes)
unfolding cut
tags_from [] tags = tags
tags_from (part ∷ parts) tags = tags_from parts (assign_tag (cut b'=' (trim_space part)) tags)

unfoldable pub record_tags : Bytes → List (Bytes × Bytes)
unfolding tags_from split
record_tags entry = tags_from (split b';' entry) []

abbrev pub key_result : Bytes → Option Bytes → HealthResult
key_result entry none = invalid_entry entry (codes "DKIM record missing 'p=' tag (public key)")
key_result entry (some []) =
    invalid_entry entry (codes "DKIM public key has been revoked (p= is empty)")
key_result entry (some (c ∷ key)) = valid_entry entry

abbrev pub dkim_result : Bytes → Lookup (List Bytes) → HealthResult
dkim_result selector (lookup_error nothing message) =
    lookup_failure (codes "No DKIM record found for selector " ++ selector) message nothing
dkim_result selector (answer []) =
    not_found (codes "No DKIM record found for selector " ++ selector)
dkim_result selector (answer (r ∷ s ∷ rest)) = invalid_entry (join (codes " | ") (r ∷ s ∷ rest)) (
    codes "Multiple DKIM records found for selector "
    ++ (selector ++ codes " (invalid configuration)"))
dkim_result selector (answer (r ∷ [])) = key_result r (field (codes "p") (record_tags r))

-- strings.Map drops these runes of a published key
unfoldable pub unquoted : List ℕ → Bytes
unquoted [] = []
unquoted (r ∷ rs) =
    let rest = unquoted rs in
    if r == b' ' || r == b'\t' || r == b'\r' || r == b'\n' || r == b'"'
    then rest
    else encode_rune r ++ rest

abbrev pub unquoted_key : Option Bytes → Option Bytes
unquoted_key none = none
unquoted_key (some p) = some (unquoted (runes p))

unfoldable pub dkim_published_key : Bytes → Option Bytes
unfolding record_tags unquoted
dkim_published_key entry = unquoted_key (field (codes "p") (record_tags entry))

-- the last two cases of the switch of CheckDKIMKey, by subtle.ConstantTimeCompare
abbrev pub compared : HealthResult → Bool → HealthResult
compared res true = record res {
  valid = true;
  details = codes "published key matches the signing key";
}
compared res false = record res {
  valid = false;
  details =
      codes
        "published key does NOT match the signing key: messages signed with this key will fail DKIM verification";
}

-- the switch, on the published key and the wanted one
abbrev pub compare_key : HealthResult → Option Bytes → Bytes → HealthResult
compare_key res none want = record res {
  valid = false;
  details = codes "DKIM record has no p= tag, so nothing can verify a signature";
}
compare_key res (some []) want = record res {
  valid = false;
  details = codes "DKIM public key has been revoked (p= is empty), so no signature can verify";
}
compare_key res (some (c ∷ got)) want = compared res (bytes_eq (c ∷ got) want)

-- dkimPublicKeyBase64 of the private key: the key, or the text of the error
pub data PublicKey : Type 0 where
  public_key : Bytes → PublicKey
  key_error : Bytes → PublicKey

abbrev pub check_key : HealthResult → PublicKey → HealthResult
check_key res (key_error message) = record empty_result {
  found = res.found;
  entry = res.entry;
  details = codes "could not derive the public key from the private key supplied";
  error = message;
}
check_key res (public_key want) = compare_key res (dkim_published_key res.entry) want

module _ (u : Unicode) (dns : Resolver) where
  abbrev pub check_mx : Bytes → HealthResult
  check_mx domain = mx_result (dns.lookup_mx domain)

  abbrev pub check_spf : Bytes → HealthResult
  check_spf domain = spf_result u (dns.lookup_txt domain)

  abbrev pub check_dmarc : Bytes → HealthResult
  check_dmarc domain = dmarc_result u (dns.lookup_txt (codes "_dmarc." ++ domain))

abbrev pub check_dkim : Resolver → Bytes → Bytes → HealthResult
check_dkim dns domain [] = record empty_result {
  error = codes "Selector is required for DKIM check";
}
check_dkim dns domain (c ∷ selector) =
    dkim_result (c ∷ selector) (dns.lookup_txt ((c ∷ selector) ++ (codes "._domainkey." ++ domain)))

unfoldable pub check_dkim_key : Resolver → Bytes → Bytes → PublicKey → HealthResult
unfolding dkim_published_key
check_dkim_key dns domain selector key =
    let res = check_dkim dns domain selector in
    if not res.found || not (bytes_eq res.error []) then res else check_key res key
