-- ===== src/Webhook/Cache.antt =====
-- webhook.go: the cache of signing certificates.
use gsmail.Prelude.{
  ℕ, suc, ◌≤◌, ◌≡◌, refl, sym, ap, ◌∙◌, inl, inr, Option, none, some, List, [], ◌∷◌, length, leb,
  arith, Bool-cases,
}
use gsmail.Prelude.Bytes.{Bytes, bytes_eq, bytes_eq_refl}
use gsmail.Webhook.{max_cached_signing_certs, cached_cert, put_cert, evicted, store_cert}

module _ {ℓ} {C : Type ℓ} (url : Bytes) (cert : C) where
  cached-put : (certs : List (Bytes × C)) → cached_cert url (put_cert url cert certs) ≡ some cert
  unfolding put_cert
  cached-put [] = rw (bytes_eq_refl url) refl
  cached-put ((k, c) ∷ certs) = elim (Bool-cases (bytes_eq k url)) [
    | inl same ↦ rw (same, same) refl
    | inr other ↦ rw (other, other) (cached-put certs)
  ]

  -- A new entry is added, and an old one replaced.
  length-put_new :
      (certs : List (Bytes × C)) → length (put_cert url cert certs) ≤ suc (length certs)
  unfolding put_cert
  length-put_new [] = omega arith
  length-put_new ((k, c) ∷ certs) = elim (Bool-cases (bytes_eq k url)) [
    | inl same ↦ rw same (omega arith)
    | inr other ↦ rw other (omega (arith, length-put_new certs))
  ]

  abbrev grown : Option C → ℕ → ℕ
  grown (some c) n = n
  grown none n = suc n

  grown-suc : (o : Option C) (n : ℕ) → grown o (suc n) ≡ suc (grown o n)
  grown-suc (some c) n = refl
  grown-suc none n = refl

  length-put :
      (certs : List (Bytes × C))
      → length (put_cert url cert certs) ≡ grown (cached_cert url certs) (length certs)
  unfolding put_cert
  length-put [] = refl
  length-put ((k, c) ∷ certs) = elim (Bool-cases (bytes_eq k url)) [
    | inl same ↦ rw same refl
    | inr other ↦ rw other (
        ap (λ n. suc n) (length-put certs) ∙ sym (grown-suc (cached_cert url certs) (length certs)))
  ]

  stored_new :
      (certs : List (Bytes × C))
      → length certs ≤ max_cached_signing_certs
      → length (put_cert url cert (evicted none certs)) ≤ max_cached_signing_certs
  stored_new [] h = omega (arith, length-put_new [])
  stored_new (entry ∷ certs) h =
      elim (Bool-cases (leb max_cached_signing_certs (length (entry ∷ certs)))) [
        | inl full ↦ rw full (omega (arith, h, length-put_new certs))
        | inr room ↦ rw room (ground (arith, room, length-put_new (entry ∷ certs)))
      ]

  stored :
      (certs : List (Bytes × C)) (o : Option C)
      → cached_cert url certs ≡ o
      → length certs ≤ max_cached_signing_certs
      → length (put_cert url cert (evicted o certs)) ≤ max_cached_signing_certs
  stored certs none e h = stored_new certs h
  stored certs (some c) e h =
      omega (arith, h, length-put certs ∙ ap (λ o. grown o (length certs)) e)

  -- Where the cache of signing certificates holds at most maxCachedSigningCerts, it does after
  -- storeCert too, and the certificate that was stored is found under its URL.
  pub cached-store_cert :
      (certs : List (Bytes × C))
      → length certs ≤ max_cached_signing_certs
      → (cached_cert url (store_cert url cert certs) ≡ some cert)
        × (length (store_cert url cert certs) ≤ max_cached_signing_certs)
  unfolding store_cert
  cached-store_cert certs h = (
    cached-put (evicted (cached_cert url certs) certs),
    stored certs (cached_cert url certs) refl h,
  )
