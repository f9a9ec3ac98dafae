-- ===== src/Suppression/Report.antt =====
-- bounce.go, suppression.go: a bounce that is read from a message, and the suppression list.
use mathlib.Core.Path.{subst}
use gsmail.Prelude.{
  ◌≡◌, ◌≢◌, refl, sym, ap, ◌∙◌, Bool, true, false, Option, none, some, [], Bool-cases, inl, inr,
  if◌then◌else◌,
}
use gsmail.Prelude.Int.{ℤ}
use gsmail.Prelude.Bytes.{Bytes, codes}
use gsmail.Text.Search.{Unicode, has_prefix}
use gsmail.Address.{AddressParser}
use gsmail.Email.{Attachment, Email}
use gsmail.Bounce.{Bounce, BounceType, hard, soft}
use gsmail.Bounce.Report.{
  HeaderRead, Report, bounced, type_of_status, dsn_bounce, parse_dsn, bounce_of, parse_bounce,
}
use gsmail.Suppression.Memory.{MemorySuppressionList, normalize_address, add_bounce, suppressed}
use gsmail.Suppression.Memory.Laws.{suppressed-add_bounce}

-- The type of a bounce is that of its status.
abbrev IsTyped : Report → Type 0
IsTyped (bounced b) = b.bounce_type ≡ type_of_status b.status
IsTyped _ = Unit

module _ (u : Unicode) (read_header : Bytes → HeaderRead) (now : ℤ) where
  dsn_bounce-IsTyped :
      (email : Email) (o : Option (Bytes → Bytes)) → IsTyped (dsn_bounce u read_header now email o)
  dsn_bounce-IsTyped email none = tt
  dsn_bounce-IsTyped email (some get) = refl

  parse_dsn-IsTyped :
      (content : Bytes) (email : Email) → IsTyped (parse_dsn u read_header now content email)
  unfolding parse_dsn
  parse_dsn-IsTyped content email = elim (Bool-cases (read_header content).failed) [
    | inl first ↦ rw first tt
    | inr fine ↦ elim (Bool-cases (read_header (read_header content).rest).failed) [
      | inl second ↦ rw (fine, second) tt
      | inr read ↦
          rw (fine, read) (dsn_bounce-IsTyped email (read_header (read_header content).rest).header)
    ]
  ]

  bounce_of-IsTyped :
      (email : Email) (o : Option Attachment) → IsTyped (bounce_of u read_header now email o)
  bounce_of-IsTyped email none = tt
  bounce_of-IsTyped email (some att) = parse_dsn-IsTyped att.content email

  parse_bounce-IsTyped : (email : Email) → IsTyped (parse_bounce u read_header now email)
  unfolding parse_bounce
  parse_bounce-IsTyped email = bounce_of-IsTyped email _

  -- Where ParseBounce reads a bounce from a message, with an address that is not empty and does not
  -- normalise to nothing, AddBounce suppresses the address if the status begins with 5, and
  -- otherwise leaves the list alone and says so.
  pub parse_bounce-suppressed :
      (lib : AddressParser) (email : Email) (b : Bounce) (l : MemorySuppressionList)
      → parse_bounce u read_header now email ≡ bounced b
      → b.email_address ≢ []
      → normalize_address u lib b.email_address ≢ []
      → (has_prefix b.status (codes "5") ≡ true
          → suppressed u lib b.email_address (add_bounce u lib (some b) l).0 ≡ true)
        × (has_prefix b.status (codes "5") ≡ false → add_bounce u lib (some b) l ≡ (l, false))
  parse_bounce-suppressed lib email b l e filled known =
      let typed = subst IsTyped e (parse_bounce-IsTyped email) in
      let added = suppressed-add_bounce u lib b b.email_address l known refl in
      (
        λ h. added.0 (typed ∙ ap kind h) filled,
        λ h. added.1 (λ k. soft-ne-hard (sym (typed ∙ ap kind h) ∙ k)),
      )
    where
      kind : Bool → BounceType
      kind five = if five then hard else soft

      soft-ne-hard : soft ≢ hard
      soft-ne-hard p = cc
