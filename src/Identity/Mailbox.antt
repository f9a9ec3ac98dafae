-- ===== src/Identity/Mailbox.antt =====
-- identity.go: reading back the mailbox and the UID of an identity.
use gsmail.Prelude.{
  ℕ, zero, suc, ◌+◌, ◌-◌, ◌*◌, ◌/◌, ◌^◌, ◌<◌, ◌≤◌, ◌≡◌, refl, ◌∙◌, inl, inr, true, false,
  Bool-cases, ltb, [], ◌∷◌, ◌++◌, none, some, arith, All, All-append, ◌==◌, ◌≢◌,
}
use gsmail.Prelude.Bytes.{Bytes}
use gsmail.Text.Search.{Unicode, cut_last}
use gsmail.Email.{Email}
use gsmail.Identity.{decimal, message_id, message_identity, mailbox_of, identity_uid}

-- What a run of decimal digits says, after the number before it.
unfoldable pub read_decimal : ℕ → Bytes → ℕ
read_decimal n [] = n
read_decimal n (c ∷ s) = read_decimal (n * 10 + (c - b'0')) s

abbrev IsDigit : ℕ → Type 0
IsDigit c = (b'0' ≤ c) × (c ≤ b'9')

read_decimal-append :
    (s : Bytes) (n : ℕ) (t : Bytes) → read_decimal n (s ++ t) ≡ read_decimal (read_decimal n s) t
unfolding read_decimal
read_decimal-append [] n t = refl
read_decimal-append (c ∷ s) n t = read_decimal-append s (n * 10 + (c - b'0')) t

decimal_lem :
    (digits n : ℕ)
    → n < 10 ^ suc digits
    → (read_decimal 0 (decimal (suc digits) n) ≡ n) × All IsDigit (decimal (suc digits) n)
unfolding decimal read_decimal
decimal_lem zero n h =
    let small : ltb n 10 ≡ true = ground arith in rw small (omega arith, (omega arith, tt))
decimal_lem (suc digits) n h = elim (Bool-cases (ltb n 10)) [
  | inl small ↦ rw small (omega arith, (ground (arith, small), tt))
  | inr big ↦
      let (value, high) = decimal_lem digits (n / 10) (omega (arith, h)) in
      rw big (
        read_decimal-append (decimal (suc digits) (n / 10)) 0 _ ∙ (rw value (omega arith)),
        All-append IsDigit (decimal (suc digits) (n / 10)) _ high (omega arith, tt),
      )
]

digits_only : (t : Bytes) → All IsDigit t → cut_last b'/' t ≡ none
unfolding cut_last
digits_only [] h = refl
digits_only (c ∷ t) h =
    let other : (c == b'/') ≡ false = ground (arith, h.0) in rw (digits_only t h.1, other) refl

digits_last : (s t : Bytes) → All IsDigit t → cut_last b'/' (s ++ b'/' ∷ t) ≡ some (s, t)
unfolding cut_last
digits_last [] t h = rw (digits_only t h) refl
digits_last (c ∷ s) t h = rw (digits_last s t h) refl

-- A message without a Message-ID but with a UID of at most twenty digits is identified by its
-- mailbox, with INBOX for none, and its UID: both are read back from the identity, split at its
-- last slash.
pub message_identity-uid :
    (u : Unicode) (sha256 : Bytes → Bytes) (e : Email)
    → message_id u e ≡ []
    → e.uid ≢ 0
    → e.uid < 10 ^ 20
    → (digits : Bytes) × ((message_identity u sha256 e).1 ≡ identity_uid)
      × (cut_last b'/' (message_identity u sha256 e).0 ≡ some (mailbox_of e, digits))
      × (read_decimal 0 digits ≡ e.uid)
unfolding message_identity
message_identity-uid u sha256 e none_given some_uid h =
    let lem = decimal_lem 19 e.uid h in
    let nonzero : (e.uid == 0) ≡ false = ground (arith, some_uid) in
    rw (none_given, nonzero)
      (decimal 20 e.uid, refl, digits_last (mailbox_of e) (decimal 20 e.uid) lem.1, lem.0)
