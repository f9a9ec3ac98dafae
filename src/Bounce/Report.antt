-- ===== src/Bounce/Report.antt =====
-- bounce.go: bounces and complaints read from a message. textproto's reader is a parameter.
use gsmail.Prelude.{Bool, ◌||◌, Option, none, some, List, [], ◌∷◌, if◌then◌else◌}
use gsmail.Prelude.Int.{ℤ}
use gsmail.Prelude.Bytes.{Bytes, codes}
use gsmail.Errors.{Error, text, errorf}
use gsmail.Text.Search.{Unicode, to_lower, trim_space, has_prefix, contains, split}
use gsmail.Email.{Attachment, Email}
use gsmail.Bounce.{BounceType, hard, soft, Bounce, Complaint}

-- What ReadMIMEHeader gives: the header, whether there is an error but io.EOF, and what is left.
pub record HeaderRead : Type 0 where
  pub header : Option (Bytes → Bytes)
  pub failed : Bool
  pub rest : Bytes

-- The outcome of ParseBounce and ParseComplaint.
pub data Report : Type 0 where
  bounced : Bounce → Report
  complained : Complaint → Report
  no_report : Error → Report

abbrev pub second_part : Bytes → List Bytes → Bytes
second_part recipient (a ∷ b ∷ parts) = trim_space b
second_part recipient _ = recipient

abbrev pub field_or : Option (Bytes → Bytes) → Bytes → Bytes
field_or none name = []
field_or (some get) name = get name

abbrev pub type_of_status : Bytes → BounceType
type_of_status status = if has_prefix status (codes "5") then hard else soft

module _ (u : Unicode) (read_header : Bytes → HeaderRead) (now : ℤ) where
  unfoldable pub is_rfc822 : Bytes → Bool
  unfolding contains
  is_rfc822 content_type =
      contains (to_lower u content_type) (codes "message/rfc822")
      || contains (to_lower u content_type) (codes "text/rfc822-headers")

  abbrev pub or_later : Option (Bytes → Bytes) → Bytes → Bytes
  or_later none later = later
  or_later (some get) later = get (codes "Message-ID")

  unfoldable pub find_original_msg_id : List Attachment → Bytes
  unfolding is_rfc822
  find_original_msg_id [] = []
  find_original_msg_id (att ∷ rest) =
      let later = find_original_msg_id rest in
      if is_rfc822 att.content_type then or_later (read_header att.content).header later else later

  abbrev pub dsn_bounce : Email → Option (Bytes → Bytes) → Report
  dsn_bounce email none = no_report (text (codes "invalid DSN format: missing recipient section"))
  dsn_bounce email (some get) = bounced (record {
    bounce_type = type_of_status (get (codes "Status"));
    email_address =
        second_part (get (codes "Final-Recipient")) (split b';' (get (codes "Final-Recipient")));
    reason = get (codes "Diagnostic-Code");
    status = get (codes "Status");
    timestamp = now;
    original_msg_id = find_original_msg_id email.attachments;
    provider = [];
  })

  unfoldable pub parse_dsn : Bytes → Email → Report
  unfolding split find_original_msg_id
  parse_dsn content email =
      let message = read_header content in
      let recipient = read_header message.rest in
      if message.failed
      then no_report (errorf (text (codes "read DSN message headers")))
      else if recipient.failed
      then no_report (errorf (text (codes "read DSN recipient headers")))
      else dsn_bounce email recipient.header

  -- the header of the first attachment that is a message, if any
  unfoldable pub original_header : List Attachment → Option (Bytes → Bytes)
  unfolding is_rfc822
  original_header [] = none
  original_header (att ∷ rest) =
      let later = original_header rest in
      if is_rfc822 att.content_type then (read_header att.content).header else later

  unfoldable pub parse_arf : Bytes → Email → Report
  unfolding original_header
  parse_arf content email =
      let report = read_header content in
      let original = original_header email.attachments in
      if report.failed
      then no_report (errorf (text (codes "read ARF headers")))
      else complained (record {
        email_address = field_or original (codes "To");
        feedback_type = field_or report.header (codes "Feedback-Type");
        timestamp = now;
        original_msg_id = field_or original (codes "Message-ID");
        user_agent = field_or report.header (codes "User-Agent");
        provider = [];
      })

  -- the loop over the attachments for one whose type holds `kind`
  unfoldable pub first_part : Bytes → List Attachment → Option Attachment
  unfolding contains
  first_part kind [] = none
  first_part kind (att ∷ rest) =
      let later = first_part kind rest in
      if contains (to_lower u att.content_type) kind then some att else later

  abbrev pub bounce_of : Email → Option Attachment → Report
  bounce_of email none = no_report (text (codes "no delivery-status part found"))
  bounce_of email (some att) = parse_dsn att.content email

  unfoldable pub parse_bounce : Email → Report
  unfolding parse_dsn first_part
  parse_bounce email =
      bounce_of email (first_part (codes "message/delivery-status") email.attachments)

  abbrev pub complaint_of : Email → Option Attachment → Report
  complaint_of email none = no_report (text (codes "no feedback-report part found"))
  complaint_of email (some att) = parse_arf att.content email

  unfoldable pub parse_complaint : Email → Report
  unfolding parse_arf first_part
  parse_complaint email =
      complaint_of email (first_part (codes "message/feedback-report") email.attachments)
