-- ===== src/Health/Order.antt =====
-- health.go: what CheckDomainHealth collects, whatever the order of the results.
use mathlib.Core.Path.{subst}
use gsmail.Prelude.{
  ℕ, ◌≡◌, refl, sym, ap, ◌∙◌, ◌⊎◌, inl, inr, true, false, Option, none, some, List, [], ◌∷◌, All,
  Bool-cases,
}
use gsmail.Prelude.Bytes.{Bytes, bytes_eq, bytes_eq_refl, bytes_eq_sound}
use gsmail.Errors.{Error}
use gsmail.Text.Search.{Unicode}
use gsmail.Health.{HealthResult, Resolver, check_mx, check_spf, check_dmarc, check_dkim}
use gsmail.Health.Collect.{
  Check, mx, spf, dmarc, dkim, DomainHealth, result_of, put_result, no_health, checks, Picked, here,
  there, Collecting, collect, Step, receive, drop_result, cancel, Run, stay, step, Returns, done,
  closed, start, Outcome, collected,
}

result_of-put_result :
    (s : Bytes) (r : HealthResult) (m : List (Bytes × HealthResult))
    → result_of s (put_result s r m) ≡ some r
unfolding result_of put_result
result_of-put_result s r [] = rw (bytes_eq_refl s) refl
result_of-put_result s r ((k, q) ∷ m) = elim (Bool-cases (bytes_eq k s)) [
  | inl same ↦ rw (same, same) refl
  | inr other ↦ rw (other, other) (result_of-put_result s r m)
]

result_of-put_other :
    (s t : Bytes) (r : HealthResult) (m : List (Bytes × HealthResult))
    → bytes_eq t s ≡ false
    → bytes_eq s t ≡ false
    → result_of s (put_result t r m) ≡ result_of s m
unfolding result_of put_result
result_of-put_other s t r [] h k = rw h refl
result_of-put_other s t r ((n, q) ∷ m) h k = elim (Bool-cases (bytes_eq n t)) [
  | inl same ↦
      let other : bytes_eq n s ≡ false =
        subst (λ z. bytes_eq z s ≡ false) (sym (bytes_eq_sound n t same)) h in
      rw (same, other) refl
  | inr other ↦ elim (Bool-cases (bytes_eq n s)) [
    | inl this ↦ rw (other, this) refl
    | inr that ↦ rw (other, that) (result_of-put_other s t r m h k)
  ]
]

module _ (u : Unicode) (dns : Resolver) (ctx_err : Error) (domain : Bytes) where
  -- The result of a check is in the health of the domain.
  abbrev pub Has : DomainHealth → Check → Type 0
  Has h mx = h.mx_health ≡ check_mx u dns domain
  Has h spf = h.spf_health ≡ check_spf u dns domain
  Has h dmarc = h.dmarc_health ≡ check_dmarc u dns domain
  Has h (dkim s) = result_of s h.dkim_health ≡ some (check_dkim dns domain s)

  collect-keeps-domain :
      (c : Check) (h : DomainHealth) → (collect u dns ctx_err c h).domain ≡ h.domain
  collect-keeps-domain mx h = refl
  collect-keeps-domain spf h = refl
  collect-keeps-domain dmarc h = refl
  collect-keeps-domain (dkim s) h = refl

  collect-Has :
      (c : Check) (h : DomainHealth) → h.domain ≡ domain → Has (collect u dns ctx_err c h) c
  collect-Has mx h e = ap (check_mx u dns) e
  collect-Has spf h e = ap (check_spf u dns) e
  collect-Has dmarc h e = ap (check_dmarc u dns) e
  collect-Has (dkim s) h e =
      result_of-put_result s (check_dkim dns h.domain s) h.dkim_health
      ∙ ap (λ d. some (check_dkim dns d s)) e

  -- A result that is in stays in.
  keeps-dkim :
      (s t : Bytes) (h : DomainHealth)
      → h.domain ≡ domain
      → Has h (dkim s)
      → Has (collect u dns ctx_err (dkim t) h) (dkim s)
  keeps-dkim s t h e k = elim (Bool-cases (bytes_eq t s)) [
    | inl same ↦
        subst (λ n. Has (collect u dns ctx_err (dkim n) h) (dkim s)) (sym (bytes_eq_sound t s same))
          (collect-Has (dkim s) h e)
    | inr other ↦ elim (Bool-cases (bytes_eq s t)) [
      | inl same ↦
          subst (λ n. Has (collect u dns ctx_err (dkim n) h) (dkim s)) (bytes_eq_sound s t same)
            (collect-Has (dkim s) h e)
      | inr apart ↦
          result_of-put_other s t (check_dkim dns h.domain t) h.dkim_health other apart ∙ k
    ]
  ]

  keeps :
      (c d : Check) (h : DomainHealth)
      → h.domain ≡ domain
      → Has h c
      → Has (collect u dns ctx_err d h) c
  keeps mx mx h e k = ap (check_mx u dns) e
  keeps mx spf h e k = k
  keeps mx dmarc h e k = k
  keeps mx (dkim t) h e k = k
  keeps spf mx h e k = k
  keeps spf spf h e k = ap (check_spf u dns) e
  keeps spf dmarc h e k = k
  keeps spf (dkim t) h e k = k
  keeps dmarc mx h e k = k
  keeps dmarc spf h e k = k
  keeps dmarc dmarc h e k = ap (check_dmarc u dns) e
  keeps dmarc (dkim t) h e k = k
  keeps (dkim s) mx h e k = k
  keeps (dkim s) spf h e k = k
  keeps (dkim s) dmarc h e k = k
  keeps (dkim s) (dkim t) h e k = keeps-dkim s t h e k

  abbrev Listed : Check → List Check → Type 0
  Listed c [] = ⊥
  Listed c (d ∷ ds) = (c ≡ d) ⊎ Listed c ds

  Listed-All : (P : Check → Type 0) (cs : List Check) → ((c : Check) → Listed c cs → P c) → All P cs
  Listed-All P [] f = tt
  Listed-All P (c ∷ cs) f = (f c (inl refl), Listed-All P cs (λ d l. f d (inr l)))

  Picked-Listed :
      {c : Check} {cs ds : List Check} (x : Check)
      → Picked c cs ds
      → Listed x cs
      → (x ≡ c) ⊎ Listed x ds
  Picked-Listed x (here c cs) l = l
  Picked-Listed x (there c d cs ds p) (inl e) = inr (inl e)
  Picked-Listed x (there c d cs ds p) (inr l) = elim (Picked-Listed x p l) [
    | inl e ↦ inl e
    | inr m ↦ inr (inr m)
  ]

  -- While the context is not done, each check is still to end or has its result in.
  abbrev Covers : List Check → Collecting → Type 0
  Covers cs s =
      s.canceled ≡ false
      → (s.health.domain ≡ domain)
        × ((c : Check) → Listed c cs → Listed c s.pending ⊎ Has s.health c)

  step-Covers :
      (cs : List Check) {s t : Collecting} → Step u dns ctx_err s t → Covers cs s → Covers cs t
  step-Covers cs (receive c ps ds h live p) inv e =
      let (name, each) = inv e in
      (
        collect-keeps-domain c h ∙ name,
        λ x l. elim (each x l) [
          | inr k ↦ inr (keeps x c h name k)
          | inl waiting ↦ elim (Picked-Listed x p waiting) [
            | inl same ↦
                inr (subst (Has (collect u dns ctx_err c h)) (sym same) (collect-Has c h name))
            | inr later ↦ inl later
          ]
        ],
      )
  step-Covers cs (drop_result c ps ds h p) inv e = cc
  step-Covers cs (cancel ps h) inv e = cc

  Run-Covers :
      (cs : List Check) {s t : Collecting} → Run u dns ctx_err s t → Covers cs s → Covers cs t
  Run-Covers cs (stay s) inv = inv
  Run-Covers cs (step s t r one rest) inv = Run-Covers cs rest (step-Covers cs one inv)

  returned :
      (cs : List Check) {s : Collecting} {h : DomainHealth} {e : Option Error}
      → Covers cs s
      → s.canceled ≡ false
      → Returns u dns ctx_err s h e
      → (e ≡ none) × All (Has h) cs
  returned cs inv live (done ps h) = cc
  returned cs inv live (closed h b) = (
    refl,
    Listed-All (Has h) cs (λ c l. elim ((inv live).1 c l) [ inl w ↦ absurd w | inr k ↦ k ]),
  )

  -- In every interleaving of the checks in which the context is not done by then, CheckDomainHealth
  -- returns without an error, and with the results that the checks of MX, SPF, DMARC and of each
  -- selector have by themselves.
  pub collect_complete :
      (selectors : List Bytes) (s : Collecting) (h : DomainHealth) (e : Option Error)
      → Run u dns ctx_err (start u dns ctx_err domain selectors) s
      → s.canceled ≡ false
      → Returns u dns ctx_err s h e
      → (e ≡ none) × All (Has h) (checks selectors)
  collect_complete selectors s h e run live r =
      returned (checks selectors) (Run-Covers (checks selectors) run (λ p. (refl, λ c l. inl l)))
        live r

module _ (u : Unicode) (dns : Resolver) (ctx_err : Error) where
  drop_all :
      (cs : List Check) (h : DomainHealth)
      → Run u dns ctx_err
          (record { pending = cs; health = h; canceled = true })
          (record { pending = []; health = h; canceled = true })
  drop_all [] h = stay _
  drop_all (c ∷ cs) h = step _ _ _ (drop_result c (c ∷ cs) cs h (here c cs)) (drop_all cs h)

  -- A call of CheckDomainHealth whose context is done while the checks run may return without an
  -- error although it holds no result at all.
  pub outcome-incomplete :
      (c : ℕ) (domain : Bytes) (selectors : List Bytes)
      → Outcome u dns ctx_err (c ∷ domain) selectors (no_health (c ∷ domain)) none
  outcome-incomplete c domain selectors =
      collected c domain selectors _ _ _
        (step _ _ _ (cancel (checks selectors) (no_health (c ∷ domain)))
          (drop_all (checks selectors) (no_health (c ∷ domain))))
        (closed (no_health (c ∷ domain)) true)
