-- ===== src/Smtp.antt =====
-- smtp/smtp.go: the envelope and the delivery of a rendered message on a connection. The commands of
-- net/smtp's Client are the parameter SmtpClient.
mod Tests
pub mod Delivery
use gsmail.Prelude.{
  ℕ, Bool, true, false, ◌&&◌, Option, none, some, List, [], ◌∷◌, ◌++◌, length, ltb, leb, ◌==◌,
  if◌then◌else◌,
}
use gsmail.Prelude.Bytes.{Bytes}
use gsmail.Errors.{Error, reply, text, errorf, errors_as, non_retryable}
use gsmail.Address.{AddressParser, Parsed, parsed, parse_email_address}
use gsmail.Email.{Email}

-- MAIL, RCPT, DATA, the writing of the message and the end of it, over the state of the connection.
pub record SmtpClient (S : Type 0) : Type 0 where
  pub mail : Bytes → S → Option Error × S
  pub rcpt : Bytes → S → Option Error × S
  pub start_data : S → Option Error × S
  pub write_message : Bytes → S → Option Error × S
  pub close_data : S → Option Error × S

-- the code of a *textproto.Error
abbrev pub code_of : Error → Option ℕ
code_of (reply code) = some code
code_of _ = none

abbrev pub is_permanent : Option ℕ → Bool
is_permanent none = false
is_permanent (some code) = leb 500 code && ltb code 600

unfoldable pub classify : Option Error → Option Error
unfolding non_retryable
classify none = none
classify (some e) = if is_permanent (errors_as code_of e) then non_retryable (some e) else some e

-- the recipients of RCPT TO
unfoldable pub recipients : Email → List Bytes
recipients email =
    if ltb 0 (length email.envelope) then email.envelope else email.to ++ (email.cc ++ email.bcc)

abbrev pub bare_address : Parsed → Bytes → Bytes
bare_address (parsed a) s = a.address
bare_address _ s = s

unfoldable pub address_of : AddressParser → Bytes → Bytes
address_of lib s = bare_address (parse_email_address lib s) s

module _ {S : Type 0} (client : SmtpClient S) where
  open client use {mail, rcpt, start_data, write_message, close_data}

  -- a command that failed ends the delivery, with its error wrapped and classified
  pub and_then : (S → Option Error × S) → Option Error × S → Option Error × S
  and_then next (none, s) = next s
  and_then next (some e, s) = (classify (some (errorf e)), s)

  pub closed : Option Error × S → Option Error × S
  closed (none, s) = (none, s)
  closed (some e, s) = (classify (some (errorf e)), s)

  -- a failed write is not classified, and the data are closed all the same
  pub written : Option Error × S → Option Error × S
  unfolding closed
  written (none, s) = closed (close_data s)
  written (some e, s) = (some (errorf e), (close_data s).1)

  unfoldable pub write_data : Bytes → S → Option Error × S
  unfolding and_then written
  write_data msg s = and_then (λ s1. written (write_message msg s1)) (start_data s)

  pub rcpt_all : (Bytes → Bytes) → List Bytes → (S → Option Error × S) → S → Option Error × S
  unfolding and_then
  rcpt_all address [] next s = next s
  rcpt_all address (t ∷ to) next s = and_then (rcpt_all address to next) (rcpt (address t) s)

  unfoldable pub send_on_client : AddressParser → Bytes → List Bytes → Bytes → S → Option Error × S
  unfolding and_then rcpt_all
  send_on_client lib from to msg s =
      and_then (rcpt_all (address_of lib) to (write_data msg)) (mail (address_of lib from) s)

-- Send up to the call of WithMessage, `deliver` being the rest.
unfoldable pub send : (List Bytes → Option Error) → Email → Option Error
unfolding recipients non_retryable
send deliver email =
    if length (recipients email) == 0
    then non_retryable (some (text []))
    else deliver (recipients email)
