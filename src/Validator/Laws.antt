-- ===== src/Validator/Laws.antt =====
-- utils.go: the addresses that a Validator accepts.
use gsmail.Prelude.{
  ◌≡◌, ◌≢◌, refl, sym, ◌∙◌, ◌⊎◌, ◌↔◌, inl, inr, Bool, true, false, not, ◌&&◌, Option, none, some,
  List, [], ◌∷◌, Option-cases, if◌then◌else◌,
}
use gsmail.Prelude.Bytes.{Bytes, codes}
use gsmail.Errors.{Error, non_retryable}
use gsmail.Text.Search.{Unicode, cut_last}
use gsmail.Health.{Mx}
use gsmail.Validator.{
  Validator, Network, Hosts, hosts, no_lookup, is_valid_email, is_disposable_domain, or_text,
  domain_part, probe, probe_all, unverified, with_hosts, validate,
}

some≢none : {e : Error} → some e ≢ none
some≢none h = cc

permanent-ne-none : (e : Error) → non_retryable (some e) ≢ none
unfolding non_retryable
permanent-ne-none e h = cc

-- the tests of the code, by what holds where they let a call go on
refused_iff :
    (b : Bool) {bad good : Option Error} {A : Type 0}
    → bad ≢ none
    → (good ≡ none) ↔ A
    → ((if b then bad else good) ≡ none) ↔ ((b ≡ false) × A)
refused_iff true h k = (λ e. absurd (h e), λ e. cc)
refused_iff false h k = (λ e. (refl, k.0 e), λ e. k.1 e.1)

skipped_iff :
    (b : Bool) {rest : Option Error} {A : Type 0}
    → (rest ≡ none) ↔ A
    → ((if b then none else rest) ≡ none) ↔ ((b ≡ true) ⊎ A)
skipped_iff true k = (λ e. inl refl, λ e. refl)
skipped_iff false k = (λ e. inr (k.0 e), λ e. elim e [ inl h ↦ cc | inr h ↦ k.1 h ])

asked_iff :
    (b : Bool) {rest : Option Error} {A : Type 0}
    → (rest ≡ none) ↔ A
    → ((if b then rest else none) ≡ none) ↔ ((b ≡ false) ⊎ A)
asked_iff true k = (λ e. inr (k.0 e), λ e. elim e [ inl h ↦ cc | inr h ↦ k.1 h ])
asked_iff false k = (λ e. inl refl, λ e. refl)

not_iff : (b : Bool) → (not b ≡ false) ↔ (b ≡ true)
not_iff true = (λ h. refl, λ h. refl)
not_iff false = (λ h. cc, λ h. cc)

unless_iff : (a b : Bool) → ((not a && b) ≡ false) ↔ ((a ≡ true) ⊎ (b ≡ false))
unless_iff true b = (λ h. inl refl, λ h. refl)
unless_iff false b = (λ h. inr h, λ h. elim h [ inl k ↦ cc | inr k ↦ k ])

neither_iff : (a b : Bool) → ((not a && not b) ≡ true) ↔ ((a ≡ false) × (b ≡ false))
neither_iff true b = (λ h. cc, λ h. cc)
neither_iff false true = (λ h. cc, λ h. cc)
neither_iff false false = (λ h. (refl, refl), λ h. refl)

module _ (u : Unicode) (net : Network) (v : Validator) where
  -- One of the hosts takes the address.
  abbrev pub IsTaken : Bytes → List Mx → Type 0
  IsTaken email [] = ⊥
  IsTaken email (mx ∷ mxs) =
      (probe u net v (net.join_host_port mx.host (or_text v.smtp_port (codes "25"))) email ≡ none)
      ⊎ IsTaken email mxs

  abbrev pub HostsPass : Bytes → Hosts → Type 0
  HostsPass email (no_lookup e) = ⊥
  HostsPass email (hosts []) = ⊥
  HostsPass email (hosts (mx ∷ mxs)) = (v.check_mailbox ≡ false) ⊎ IsTaken email (mx ∷ mxs)

  abbrev pub IsAccepted : Bytes → Type 0
  IsAccepted email =
      (is_valid_email u email ≡ true)
      × ((v.allow_disposable ≡ true)
          ⊎ (is_disposable_domain u (domain_part (cut_last b'@' email) email) v.disposable_domains
              ≡ false))
      × (((v.check_mx ≡ false) × (v.check_mailbox ≡ false))
          ⊎ HostsPass email (net.lookup_mx (domain_part (cut_last b'@' email) email)))

  probe_all_step :
      (email : Bytes) (mx : Mx) (mxs : List Mx) (last : Option Error) (o : Option Error)
      → probe u net v (net.join_host_port mx.host (or_text v.smtp_port (codes "25"))) email ≡ o
      → probe_all u net v email (mx ∷ mxs) last
        ≡ (elim o [ none ↦ none | some e ↦ probe_all u net v email mxs (some e) ])
  unfolding probe_all
  probe_all_step email mx mxs last o h = rw (h, probe_all) refl

  probe_all_iff :
      (email : Bytes) (mxs : List Mx) (e : Error)
      → (probe_all u net v email mxs (some e) ≡ none) ↔ IsTaken email mxs
  unfolding probe_all
  probe_all_iff email [] e = (λ h. cc, λ h. absurd h)
  probe_all_iff email (mx ∷ mxs) e =
      elim (Option-cases
        (probe u net v (net.join_host_port mx.host (or_text v.smtp_port (codes "25"))) email)) [
          | inl taken ↦ (λ h. inl taken, λ h. probe_all_step email mx mxs (some e) none taken)
          | inr failed ↦
              let ih = probe_all_iff email mxs failed.0 in
              let same = probe_all_step email mx mxs (some e) (some failed.0) failed.1 in
              (
                λ h. inr (ih.0 (sym same ∙ h)),
                λ h. elim h [
                  | inl k ↦ absurd (some≢none (sym failed.1 ∙ k))
                  | inr k ↦ same ∙ ih.1 k
                ],
              )
        ]

  probe_first_iff :
      (email : Bytes) (mx : Mx) (mxs : List Mx)
      → (probe_all u net v email (mx ∷ mxs) none ≡ none) ↔ IsTaken email (mx ∷ mxs)
  probe_first_iff email mx mxs =
      elim (Option-cases
        (probe u net v (net.join_host_port mx.host (or_text v.smtp_port (codes "25"))) email)) [
          | inl taken ↦ (λ h. inl taken, λ h. probe_all_step email mx mxs none none taken)
          | inr failed ↦
              let ih = probe_all_iff email mxs failed.0 in
              let same = probe_all_step email mx mxs none (some failed.0) failed.1 in
              (
                λ h. inr (ih.0 (sym same ∙ h)),
                λ h. elim h [
                  | inl k ↦ absurd (some≢none (sym failed.1 ∙ k))
                  | inr k ↦ same ∙ ih.1 k
                ],
              )
        ]

  unverified_iff : (o : Option Error) → (unverified u net v o ≡ none) ↔ (o ≡ none)
  unverified_iff none = (λ h. refl, λ h. refl)
  unverified_iff (some e) = (λ h. cc, λ h. cc)

  with_hosts_iff :
      (email : Bytes) (h : Hosts) → (with_hosts u net v email h ≡ none) ↔ HostsPass email h
  with_hosts_iff email (no_lookup e) = (λ h. cc, λ h. absurd h)
  with_hosts_iff email (hosts []) = (λ h. absurd (permanent-ne-none _ h), λ h. absurd h)
  with_hosts_iff email (hosts (mx ∷ mxs)) =
      let probed = probe_first_iff email mx mxs in
      let verified = unverified_iff (probe_all u net v email (mx ∷ mxs) none) in
      asked_iff v.check_mailbox (λ h. probed.0 (verified.0 h), λ h. verified.1 (probed.1 h))

  -- Validate accepts an address exactly where it matches the syntax, its domain is not in the list
  -- of disposable ones unless those are allowed, and either neither network check is asked for, or
  -- the lookup gives hosts and, where the mailbox is to be checked, one of them takes the address
  -- in its probe.
  pub validate_iff : (email : Bytes) → (validate u net v email ≡ none) ↔ IsAccepted email
  unfolding validate
  validate_iff email =
      let domain = domain_part (cut_last b'@' email) email in
      let looked =
        skipped_iff (not v.check_mx && not v.check_mailbox)
          (with_hosts_iff email (net.lookup_mx domain)) in
      let listed =
        refused_iff (not v.allow_disposable && is_disposable_domain u domain v.disposable_domains)
          (permanent-ne-none _) looked in
      let whole = refused_iff (not (is_valid_email u email)) (permanent-ne-none _) listed in
      let valid = not_iff (is_valid_email u email) in
      let allowed =
        unless_iff v.allow_disposable (is_disposable_domain u domain v.disposable_domains) in
      let off = neither_iff v.check_mx v.check_mailbox in
      (
        λ h.
            let (a, (b, c)) = whole.0 h in
            (valid.0 a, allowed.0 b, elim c [ inl k ↦ inl (off.0 k) | inr k ↦ inr k ]),
        λ h.
            let (a, b, c) = h in
            whole.1 (valid.1 a, (allowed.1 b, elim c [ inl k ↦ inl (off.1 k) | inr k ↦ inr k ])),
      )
