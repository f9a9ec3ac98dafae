-- ===== src/Smtp/Delivery.antt =====
-- smtp/smtp.go: which commands a delivery sends, and what its errors say to Retry.
use gsmail.Prelude.{
  ℕ, zero, suc, ◌≤◌, ◌<◌, ◌≡◌, refl, ap, ◌≢◌, ◌∙◌, ◌↔◌, true, false, Option, none, some, List, [],
  ◌∷◌, arith,
}
use gsmail.Prelude.Bytes.{Bytes}
use gsmail.Errors.{
  Error, reply, non_retryable_error, errorf, errors_as, errors_is, is_retryable, non_retryable,
}
use gsmail.Errors.Laws.{wraps, is_retryable-wraps, is_retryable-non_retryable}
use gsmail.Address.{AddressParser}
use gsmail.Smtp.{
  SmtpClient, code_of, classify, address_of, and_then, closed, written, rcpt_all, write_data,
  send_on_client,
}

code_of-wraps : (n code : ℕ) → errors_as code_of (wraps n (reply code)) ≡ some code
unfolding wraps errors_as
code_of-wraps zero code = refl
code_of-wraps (suc n) code = code_of-wraps n code

wraps-is_retryable : (n code : ℕ) → is_retryable (some (wraps n (reply code))) ≡ true
unfolding is_retryable errors_is errors_as
wraps-is_retryable n code = (is_retryable-wraps n (reply code)).0 ∙ refl

non_retryable_error_lem : (e : Error) → is_retryable (some (non_retryable_error e)) ≡ false
unfolding wraps
non_retryable_error_lem e = is_retryable-non_retryable 0 e

-- An error of SMTP with a reply code, however wrapped, is given up after classify exactly where the
-- code is of the class 5xx.
pub classify-reply :
    (n code : ℕ)
    → (is_retryable (classify (some (wraps n (reply code)))) ≡ false)
      ↔ ((500 ≤ code) × (code < 600))
unfolding classify non_retryable
classify-reply n code = ground (
  arith,
  code_of-wraps n code,
  wraps-is_retryable n code,
  non_retryable_error_lem (wraps n (reply code)),
)

classify-ne-none : (e : Error) → classify (some e) ≢ none
unfolding classify non_retryable
classify-ne-none e = ground arith

module _ {S : Type 0} (client : SmtpClient S) where
  open client use {mail, rcpt, start_data, write_message, close_data}

  -- RCPT is accepted for the recipients, one after the other; they take the connection from `s` to `t`.
  pub data Accepted (address : Bytes → Bytes) : List Bytes → S → S → Type 0 where
    nobody : (s : S) → Accepted address [] s s
    accept :
        (a : Bytes) (to : List Bytes) (s s1 t : S)
        → rcpt (address a) s ≡ (none, s1)
        → Accepted address to s1 t
        → Accepted address (a ∷ to) s t

  and_then-none :
      (next : S → Option Error × S) (o : Option Error × S) (t : S)
      → and_then client next o ≡ (none, t)
      → (s : S) × (o ≡ (none, s)) × (next s ≡ (none, t))
  unfolding and_then
  and_then-none next (none, s) t e = (s, refl, e)
  and_then-none next (some x, s) t e =
      absurd (classify-ne-none (errorf x) (ap (λ (o : Option Error × S). o.0) e))

  closed-none : (o : Option Error × S) (t : S) → closed client o ≡ (none, t) → o ≡ (none, t)
  unfolding closed
  closed-none (none, s1) t h = h
  closed-none (some x, s1) t h =
      absurd (classify-ne-none (errorf x) (ap (λ (o : Option Error × S). o.0) h))

  written-none :
      (o : Option Error × S) (t : S)
      → written client o ≡ (none, t)
      → (s : S) × (o ≡ (none, s)) × (close_data s ≡ (none, t))
  unfolding written
  written-none (none, s) t e = (s, refl, closed-none (close_data s) t e)
  written-none (some x, s) t e = absurd (cc e)

  rcpt_all-none :
      (address : Bytes → Bytes) (to : List Bytes) (next : S → Option Error × S) (s t : S)
      → rcpt_all client address to next s ≡ (none, t)
      → (s1 : S) × Accepted address to s s1 × (next s1 ≡ (none, t))
  unfolding rcpt_all
  rcpt_all-none address [] next s t e = (s, nobody s, e)
  rcpt_all-none address (a ∷ to) next s t e =
      let (s1, ok, later) =
        and_then-none (rcpt_all client address to next) (rcpt (address a) s) t e in
      let (s2, rest, last) = rcpt_all-none address to next s1 t later in
      (s2, accept a to s s1 s2 ok rest, last)

  -- A delivery reports success only where the server took the sender, then each of the recipients
  -- in their order, then the start of the data, the message itself and its end.
  pub send_on_client-none :
      (lib : AddressParser) (from : Bytes) (to : List Bytes) (msg : Bytes) (s t : S)
      → send_on_client client lib from to msg s ≡ (none, t)
      → (s1 s2 s3 s4 : S) × (mail (address_of lib from) s ≡ (none, s1))
        × Accepted (address_of lib) to s1 s2
        × (start_data s2 ≡ (none, s3))
        × (write_message msg s3 ≡ (none, s4))
        × (close_data s4 ≡ (none, t))
  unfolding send_on_client write_data
  send_on_client-none lib from to msg s t e =
      let (s1, mailed, later) =
        and_then-none (rcpt_all client (address_of lib) to (write_data client msg))
          (mail (address_of lib from) s) t e in
      let (s2, accepted, data_sent) =
        rcpt_all-none (address_of lib) to (write_data client msg) s1 t later in
      let (s3, started, writing) =
        and_then-none (λ s3. written client (write_message msg s3)) (start_data s2) t data_sent in
      let (s4, wrote, ended) = written-none (write_message msg s3) t writing in
      (s1, s2, s3, s4, mailed, accepted, started, wrote, ended)
