-- ===== src/Suppression/Intercept/Laws.antt =====
-- suppression.go: what the interceptor lets through.
use mathlib.Core.Path.{subst}
use gsmail.Prelude.{
  ap, sym, if◌then◌else◌, Bool-cases, ◌==◌, ℕ, ◌+◌, ◌<◌, ◌≡◌, refl, ◌⊎◌, inl, inr, Bool, true,
  false, Option, some, List, [], ◌∷◌, ◌++◌, length, arith, All,
}
use gsmail.Prelude.Bytes.{Bytes}
use gsmail.Errors.{
  Error, errorf, sentinel, err_all_recipients_suppressed, non_retryable_error, non_retryable,
}
use gsmail.Email.{Email}
use gsmail.Suppression.Intercept.{
  Answer, withheld, lookup_error, Kept, kept, broken, kept_by, keep, suppress, keep_to, keep_cc,
  keep_bcc, finish,
}

module _ (normalize : Bytes → Bytes) (ask : Bytes → Answer) (ignore : Bool) where
  -- an address that the suppressor has not withheld
  abbrev pub IsClear : Bytes → Type 0
  IsClear addr =
      (ask (normalize addr) ≡ withheld false)
      ⊎ ((ignore ≡ true) × ((e : Error) × (ask (normalize addr) ≡ lookup_error e)))

  abbrev pub passes : Answer → Bool
  passes (withheld true) = false
  passes (withheld false) = true
  passes (lookup_error e) = true

  -- the recipients of a list that are not withheld, in their order
  abbrev choose : Bytes → Answer → List Bytes → List Bytes
  choose a (withheld true) rest = rest
  choose a _ rest = a ∷ rest

  abbrev pub passing : List Bytes → List Bytes
  passing [] = []
  passing (a ∷ rest) = choose a (ask (normalize a)) (passing rest)

  -- what filtering one list should give: the recipients that are not withheld, in order, or, where
  -- errors are not ignored, the error of a lookup
  abbrev pub Filtered : List Bytes → Kept → Type 0
  Filtered list (kept out dropped) = (out ≡ passing list) × All IsClear out
  Filtered list (broken e dropped) = ignore ≡ false

  Filtered-kept_by :
      (a : Bytes) (list : List Bytes) (k : Kept) (answer : Answer)
      → ask (normalize a) ≡ answer
      → Filtered list k
      → Filtered (a ∷ list) (kept_by normalize ask ignore a answer k)
  Filtered-kept_by a list (kept out d) (withheld true) e f = (rw e f.0, f.1)
  Filtered-kept_by a list (broken x d) (withheld true) e f = f
  Filtered-kept_by a list (kept out d) (withheld false) e f =
      (rw e (ap (λ t. a ∷ t) f.0), (inl e, f.1))
  Filtered-kept_by a list (broken x d) (withheld false) e f = f
  Filtered-kept_by a list (kept out d) (lookup_error x) e f = elim (Bool-cases ignore) [
    | inl lenient ↦
        subst (λ b. Filtered (a ∷ list) (if b then kept (a ∷ out) d else broken (errorf x) []))
          (sym lenient) (rw e (ap (λ t. a ∷ t) f.0), (inr (lenient, (x, e)), f.1))
    | inr strict ↦
        subst (λ b. Filtered (a ∷ list) (if b then kept (a ∷ out) d else broken (errorf x) []))
          (sym strict) strict
  ]
  Filtered-kept_by a list (broken y d) (lookup_error x) e f =
      subst (λ b. Filtered (a ∷ list) (if b then broken y d else broken (errorf x) [])) (sym f) f

  keep-Filtered : (list : List Bytes) → Filtered list (keep normalize ask ignore list)
  unfolding keep
  keep-Filtered [] = (refl, tt)
  keep-Filtered (a ∷ list) =
      Filtered-kept_by a list (keep normalize ask ignore list) (ask (normalize a)) refl
        (keep-Filtered list)

  -- the message that the interceptor passes on
  abbrev pub filtered : Email → Email
  filtered email = record email {
    to = passing email.to;
    cc = passing email.cc;
    bcc = passing email.bcc;
  }

  abbrev pub recipients : Email → ℕ
  recipients email = length email.to + length email.cc + length email.bcc

  abbrev pub Refuses : ((Email → Option Error) → Option Error × List Bytes) → Type 0
  Refuses run = (e : Error) × ((next : Email → Option Error) → (run next).0 ≡ some e)

  abbrev pub PassesOn : Email → ((Email → Option Error) → Option Error × List Bytes) → Type 0
  PassesOn email run =
      ((next : Email → Option Error) → (run next).0 ≡ next (filtered email))
      × (0 < recipients (filtered email))
      × All IsClear (passing email.to)
      × All IsClear (passing email.cc)
      × All IsClear (passing email.bcc)

  module _ (email : Email) where
    by_count :
        (d : List Bytes)
        → All IsClear (passing email.to)
        → All IsClear (passing email.cc)
        → All IsClear (passing email.bcc)
        → Refuses (finish normalize ask ignore (filtered email) d)
          ⊎ PassesOn email (finish normalize ask ignore (filtered email) d)
    unfolding finish non_retryable
    by_count d t c b = elim (Bool-cases (recipients (filtered email) == 0)) [
      | inl nobody ↦ inl (
        non_retryable_error (sentinel err_all_recipients_suppressed),
        λ next. ground (arith, nobody),
      )
      | inr somebody ↦ inr ((λ next. ground (arith, somebody)), ground arith, t, c, b)
    ]

    by_bcc :
        (d : List Bytes) (k : Kept)
        → All IsClear (passing email.to)
        → All IsClear (passing email.cc)
        → Filtered email.bcc k
        → let e = record email { to = passing email.to; cc = passing email.cc } in
          Refuses (keep_bcc normalize ask ignore e d k)
          ⊎ PassesOn email (keep_bcc normalize ask ignore e d k)
    unfolding keep_bcc
    by_bcc d (broken e d') t c f = inl (e, λ next. refl)
    by_bcc d (kept out d') t c f = rw f.0 (by_count (d ++ d') t c (subst (All IsClear) f.0 f.1))

    by_cc :
        (d : List Bytes) (k : Kept)
        → All IsClear (passing email.to)
        → Filtered email.cc k
        → let e = record email { to = passing email.to } in
          Refuses (keep_cc normalize ask ignore e d k)
          ⊎ PassesOn email (keep_cc normalize ask ignore e d k)
    unfolding keep_cc
    by_cc d (broken e d') t f = inl (e, λ next. refl)
    by_cc d (kept out d') t f = rw f.0 (
        by_bcc (d ++ d') (keep normalize ask ignore email.bcc) t (subst (All IsClear) f.0 f.1)
          (keep-Filtered email.bcc))

    by_to :
        (k : Kept)
        → Filtered email.to k
        → Refuses (keep_to normalize ask ignore email k)
          ⊎ PassesOn email (keep_to normalize ask ignore email k)
    unfolding keep_to
    by_to (broken e d) f = inl (e, λ next. refl)
    by_to (kept out d) f = rw f.0 (
        by_cc d (keep normalize ask ignore email.cc) (subst (All IsClear) f.0 f.1)
          (keep-Filtered email.cc))

  -- The send ends in an error without a call of next, or is next on the filtered message, which has
  -- a recipient, and only recipients that the suppressor let through or, where errors are ignored,
  -- could not look up.
  pub suppress-dispatch :
      (email : Email)
      → Refuses (suppress normalize ask ignore email)
        ⊎ PassesOn email (suppress normalize ask ignore email)
  unfolding suppress
  suppress-dispatch email =
      by_to email (keep normalize ask ignore email.to) (keep-Filtered email.to)
