-- ===== src/Suppression/Loop.antt =====
-- suppression.go: the list as the suppressor of the interceptor.
use gsmail.Prelude.{◌≡◌, ◌≢◌, ◌∙◌, ap, ◌⊎◌, inl, inr, Bool, Option, some, List, [], ◌∷◌, All}
use gsmail.Prelude.Bytes.{Bytes}
use gsmail.Errors.{Error}
use gsmail.Text.Search.{Unicode}
use gsmail.Address.{AddressParser}
use gsmail.Bounce.{Bounce, hard}
use gsmail.Email.{Email}
use gsmail.Suppression.Memory.{MemorySuppressionList, normalize_address, add_bounce, suppressed}
use gsmail.Suppression.Memory.Laws.{suppressed-add_bounce}
use gsmail.Suppression.Intercept.{Answer, withheld, suppress}
use gsmail.Suppression.Intercept.Laws.{IsClear, filtered, Refuses, suppress-dispatch}

-- MemorySuppressionList as a Suppressor
abbrev pub asks : Unicode → AddressParser → MemorySuppressionList → Bytes → Answer
asks u lib l address = withheld (suppressed u lib address l)

module _ (u : Unicode) (lib : AddressParser) (b : Bounce) (l : MemorySuppressionList)
    (ignore : Bool) (is_hard : b.bounce_type ≡ hard) (filled : b.email_address ≢ [])
    (known : normalize_address u lib b.email_address ≢ [])
    (stable : normalize_address u lib (normalize_address u lib b.email_address)
      ≡ normalize_address u lib b.email_address) where
  abbrev normal : Bytes → Bytes
  normal = normalize_address u lib

  abbrev after : MemorySuppressionList
  after = (add_bounce u lib (some b) l).0

  IsClear-elsewhere :
      (a : Bytes) → IsClear normal (asks u lib after) ignore a → normal a ≢ normal b.email_address
  IsClear-elsewhere a (inl clear) same =
      let hit =
        (suppressed-add_bounce u lib b (normal a) l known (ap normal same ∙ stable)).0 is_hard
          filled in
      cc
  IsClear-elsewhere a (inr (lenient, (e, failed))) same = cc

  All-elsewhere :
      (as' : List Bytes)
      → All (IsClear normal (asks u lib after) ignore) as'
      → All (λ a. normal a ≢ normal b.email_address) as'
  All-elsewhere [] h = tt
  All-elsewhere (a ∷ rest) h = (IsClear-elsewhere a h.0, All-elsewhere rest h.1)

  -- Once AddBounce has taken a hard bounce of an address that does not normalise to nothing, a
  -- message that the interceptor passes on has no recipient with the normal form of the bounced
  -- address, if normalising that form again changes nothing.
  pub suppress-add_bounce :
      (email : Email)
      → let run = suppress normal (asks u lib after) ignore email in
        let sent = filtered normal (asks u lib after) ignore email in
        Refuses normal (asks u lib after) ignore run
        ⊎ (((next : Email → Option Error) → (run next).0 ≡ next sent)
            × All (λ a. normal a ≢ normal b.email_address) sent.to
            × All (λ a. normal a ≢ normal b.email_address) sent.cc
            × All (λ a. normal a ≢ normal b.email_address) sent.bcc)
  suppress-add_bounce email = elim (suppress-dispatch normal (asks u lib after) ignore email) [
    | inl refuses ↦ inl refuses
    | inr (passes, some_left, t, c, h) ↦
        inr (passes, All-elsewhere _ t, All-elsewhere _ c, All-elsewhere _ h)
  ]
