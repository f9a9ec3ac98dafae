-- ===== src/Compose/Token.antt =====
-- compose.go: when the caching token source refreshes.
use gsmail.Prelude.{
  ◌≡◌, refl, ap, true, Option, none, some, List, [], ◌∷◌, All, arith, map, ◌⊎◌, ◌≢◌,
}
use gsmail.Prelude.Int.{ℤ}
use gsmail.Prelude.Bytes.{Bytes, bytes_eq_sound, bytes_eq_refl}
use gsmail.Errors.{Error, non_retryable}
use gsmail.Compose.{CachedToken, Refreshed, is_fresh, token}

module _ {S : Type 0} (f : S → Refreshed × S) (leeway : ℤ) where
  -- the calls of Token at the times `nows`, one after the other, with all their results
  unfoldable pub tokens : CachedToken → List ℤ → S → List (Bytes × Option Error) × CachedToken × S
  tokens c [] s = ([], c, s)
  tokens c (now ∷ nows) s =
      let r = token (some f) leeway c now s in
      let rest = tokens r.1 nows r.2 in (r.0 ∷ rest.0, rest.1, rest.2)

  -- While the cached token is fresh at the times of the calls, that is, before its expiry less the
  -- leeway, every call of Token returns it, none refreshes, and the cache stays as it is.
  pub tokens-fresh :
      (c : CachedToken) (nows : List ℤ) (s : S)
      → All (λ now. is_fresh leeway c now ≡ true) nows
      → tokens c nows s ≡ (map (λ now. (c.token, none)) nows, c, s)
  unfolding tokens token
  tokens-fresh c [] s h = refl
  tokens-fresh c (now ∷ nows) s h = rw h.0 (
      ap (λ (z : List (Bytes × Option Error) × CachedToken × S). ((c.token, none) ∷ z.0, z.1, z.2))
        (tokens-fresh c nows s h.1))

  -- Token returns the cached token where that is fresh, and else what the refresh returns: a new
  -- token replaces the cached one, an error is passed on, and an empty token is an error; neither
  -- error changes the cache.
  pub token-cases :
      (c : CachedToken) (now : ℤ) (s : S)
      → let r = (f s).0 in
        let out = token (some f) leeway c now s in
        ((is_fresh leeway c now ≡ true) × (out ≡ ((c.token, none), c, s)))
        ⊎ ((r.err ≡ none)
            × (r.token ≢ [])
            × (out ≡ ((r.token, none), record { token = r.token; expiry = r.expiry }, (f s).1)))
        ⊎ ((out.0.0 ≡ []) × (out.0.1 ≢ none) × (out.1 ≡ c) × (out.2 ≡ (f s).1))
  unfolding token non_retryable
  token-cases c now s = ground (arith, bytes_eq_sound (f s).0.token [], bytes_eq_refl [])
