-- ===== src/Health/Checks.antt =====
-- health.go: what a check that reports a valid record has found.
use mathlib.Core.Path.{subst}
use gsmail.Prelude.{
  ℕ, ◌≡◌, ◌≢◌, refl, sym, ap, ◌∙◌, ◌↔◌, Bool, true, false, ◌||◌, not, Option, none, some, List, [],
  ◌∷◌, ◌++◌, if◌then◌else◌,
}
use gsmail.Prelude.Bytes.{Bytes, bytes_eq, bytes_eq_sound, codes}
use gsmail.Identity.{field}
use gsmail.Health.{
  HealthResult, Lookup, answer, lookup_error, Resolver, record_tags, key_result, dkim_result,
  lookup_failure, check_dkim, check_dkim_key, check_key, compare_key, compared, PublicKey,
  public_key, key_error, dkim_published_key,
}

-- An answer of one record that has a key which is not empty.
abbrev pub HasKey : Lookup (List Bytes) → Bytes → Type 0
HasKey l entry =
    (l ≡ answer (entry ∷ []))
    × ((c : ℕ) × (key : Bytes) × (field (codes "p") (record_tags entry) ≡ some (c ∷ key)))

lookup_failure-invalid :
    (details message : Bytes) (nothing : Bool)
    → (lookup_failure details message nothing).valid ≢ true
lookup_failure-invalid details message true h = cc
lookup_failure-invalid details message false h = cc

key_result-valid :
    (entry : Bytes) (o : Option Bytes)
    → (key_result entry o).valid ≡ true
    → ((key_result entry o).entry ≡ entry) × ((c : ℕ) × (key : Bytes) × (o ≡ some (c ∷ key)))
key_result-valid entry none h = cc
key_result-valid entry (some []) h = cc
key_result-valid entry (some (c ∷ key)) h = (refl, (c, key, refl))

dkim_result-valid :
    (selector : Bytes) (l : Lookup (List Bytes))
    → (dkim_result selector l).valid ≡ true
    → HasKey l (dkim_result selector l).entry
dkim_result-valid selector (lookup_error nothing message) h =
    absurd (lookup_failure-invalid _ message nothing h)
dkim_result-valid selector (answer []) h = cc
dkim_result-valid selector (answer (r ∷ s ∷ rest)) h = cc
dkim_result-valid selector (answer (r ∷ [])) h =
    let k = key_result-valid r (field (codes "p") (record_tags r)) h in
    subst (HasKey (answer (r ∷ []))) (sym k.0) (refl, k.1)

dkim_result-HasKey :
    (selector : Bytes) (l : Lookup (List Bytes)) (entry : Bytes)
    → HasKey l entry
    → (dkim_result selector l).valid ≡ true
dkim_result-HasKey selector l entry (e, (c, key, k)) =
    ap (λ z. (dkim_result selector z).valid) e ∙ ap (λ o. (key_result entry o).valid) k

-- For a selector that is not empty, CheckDKIM reports a valid record exactly where the lookup
-- answers with one record whose p tag is present and not empty.
pub check_dkim_iff :
    (dns : Resolver) (domain : Bytes) (c : ℕ) (selector : Bytes)
    → ((check_dkim dns domain (c ∷ selector)).valid ≡ true) ↔ (
        (entry : Bytes) × HasKey
          (dns.lookup_txt ((c ∷ selector) ++ (codes "._domainkey." ++ domain)))
          entry)
check_dkim_iff dns domain c selector = (
  λ h. (_, dkim_result-valid (c ∷ selector) _ h),
  λ h. dkim_result-HasKey (c ∷ selector) _ h.0 h.1,
)

compared-valid : (res : HealthResult) (b : Bool) → (compared res b).valid ≡ true → b ≡ true
compared-valid res true h = refl
compared-valid res false h = cc

compare_key-valid :
    (res : HealthResult) (o : Option Bytes) (want : Bytes)
    → (compare_key res o want).valid ≡ true
    → (o ≡ some want) × (want ≢ [])
compare_key-valid res none want h = cc
compare_key-valid res (some []) want h = cc
compare_key-valid res (some (c ∷ got)) want h =
    let same = bytes_eq_sound (c ∷ got) want (compared-valid res (bytes_eq (c ∷ got) want) h) in
    (ap (λ (z : Bytes). some z) same, subst (λ w. w ≢ []) same (λ e. cc))

-- The published key is the one that the private key belongs to.
abbrev pub Publishes : HealthResult → PublicKey → Type 0
Publishes res (key_error message) = ⊥
Publishes res (public_key want) = (dkim_published_key res.entry ≡ some want) × (want ≢ [])

check_key-valid :
    (res : HealthResult) (key : PublicKey) → (check_key res key).valid ≡ true → Publishes res key
check_key-valid res (key_error message) h = cc
check_key-valid res (public_key want) h =
    compare_key-valid res (dkim_published_key res.entry) want h

key_result-found :
    (entry : Bytes) (o : Option Bytes)
    → ((key_result entry o).found ≡ true) × ((key_result entry o).error ≡ [])
key_result-found entry none = (refl, refl)
key_result-found entry (some []) = (refl, refl)
key_result-found entry (some (c ∷ key)) = (refl, refl)

dkim_result-found :
    (selector : Bytes) (l : Lookup (List Bytes))
    → (dkim_result selector l).valid ≡ true
    → ((dkim_result selector l).found ≡ true) × ((dkim_result selector l).error ≡ [])
dkim_result-found selector (lookup_error nothing message) h =
    absurd (lookup_failure-invalid _ message nothing h)
dkim_result-found selector (answer []) h = cc
dkim_result-found selector (answer (r ∷ s ∷ rest)) h = cc
dkim_result-found selector (answer (r ∷ [])) h =
    key_result-found r (field (codes "p") (record_tags r))

-- Where the result is not returned early, the key is compared.
guarded :
    (b : Bool) (res checked : HealthResult)
    → (b ≡ true → res.valid ≢ true)
    → (if b then res else checked).valid ≡ true
    → checked.valid ≡ true
guarded true res checked h k = absurd (h refl k)
guarded false res checked h k = k

early-invalid :
    (res : HealthResult)
    → (res.valid ≡ true → (res.found ≡ true) × (res.error ≡ []))
    → (not res.found || not (bytes_eq res.error [])) ≡ true
    → res.valid ≢ true
unfolding bytes_eq
early-invalid res shape early valid =
    let (found, error) = shape valid in
    false≢true (
      sym (
        ap (λ f. not f || not (bytes_eq res.error [])) found
        ∙ ap (λ (e : Bytes). not (bytes_eq e [])) error)
      ∙ early)
  where
    false≢true : false ≢ true
    false≢true e = cc

-- For a selector that is not empty, CheckDKIMKey reports a valid record only where the key that the
-- record publishes, without white space and quotes, is the one derived from the private key, and is
-- not empty.
pub check_dkim_key-Publishes :
    (dns : Resolver) (domain : Bytes) (c : ℕ) (selector : Bytes) (key : PublicKey)
    → (check_dkim_key dns domain (c ∷ selector) key).valid ≡ true
    → Publishes (check_dkim dns domain (c ∷ selector)) key
unfolding check_dkim_key
check_dkim_key-Publishes dns domain c selector key h =
    let res = check_dkim dns domain (c ∷ selector) in
    check_key-valid res key (
      guarded (not res.found || not (bytes_eq res.error [])) res (check_key res key)
        (early-invalid res (dkim_result-found (c ∷ selector) _)) h)
