-- ===== src/Message.antt =====
-- utils.go: rendering a message. What the code takes from elsewhere is the record Env.
mod Tests
pub mod Reader
pub mod Fields
pub mod Injection
pub mod Names
pub mod Once
pub mod Parts
pub mod Total
use gsmail.Prelude.{
  ℕ, Bool, true, false, ◌&&◌, ◌||◌, not, Option, none, some, List, [], ◌∷◌, ◌++◌, length, ◌==◌,
  if◌then◌else◌,
}
use gsmail.Prelude.Bytes.{Bytes, bytes_eq, codes}
use gsmail.Errors.{Error, sentinel, err_conflicting_content_type, text, non_retryable}
use gsmail.Text.Search.{Unicode, to_lower}
use gsmail.Email.{Email}
use gsmail.Identity.{field, is_empty}
use gsmail.Address.{AddressParser, format_address, format_addresses}
use gsmail.Header.{encode_header, is_valid_header_name}
use gsmail.Headers.{is_reserved, sorted_header_names, value_of}
use gsmail.Html.{has_header, is_html}
use gsmail.MessageId.{generate_message_id}
use gsmail.Mime.{crlf, write_mime_base64}
use gsmail.Multipart.{Part, write_fields, write_multipart, body_part, attachment_parts}

-- The tables of unicode, mime.QEncoding, net/mail, the current time in the format RFC1123Z, the random
-- bytes of the Message-ID, and the boundaries that multipart.NewWriter makes.
pub record Env : Type 0 where
  pub unicode : Unicode
  pub q_encode : Bytes → Bytes
  pub addresses : AddressParser
  pub date : Bytes
  pub random : Bytes
  pub boundary : Bytes
  pub alt_boundary : Bytes

-- The fields that the loop over the caller's headers writes, or its error.
pub data CallerFields : Type 0 where
  legal_fields : List (Bytes × Bytes) → CallerFields
  bad_name : Option Error → CallerFields

-- What buildMessage appends to the buffer, or its error.
pub data Built : Type 0 where
  built : Bytes → Built
  not_built : Option Error → Built

abbrev pub also : List (Bytes × Bytes) → CallerFields → CallerFields
also before (legal_fields after) = legal_fields (before ++ after)
also before (bad_name e) = bad_name e

abbrev pub header_html : Bytes
header_html = codes "text/html; charset=\"UTF-8\""

abbrev pub header_plain : Bytes
header_plain = codes "text/plain; charset=\"UTF-8\""

abbrev pub has_attachments : Email → Bool
has_attachments email = not (is_empty email.attachments)

abbrev pub has_both_bodies : Email → Bool
has_both_bodies email = not (is_empty email.body) && not (is_empty email.html_body)

-- mainBody and isHTML
unfoldable pub main_body : Email → Bytes × Bool
unfolding is_html
main_body email =
    if is_empty email.body && not (is_empty email.html_body)
    then (email.html_body, true)
    else (email.body, is_html email.body)

abbrev pub main_type : Bool → Bytes
main_type html = if html then codes "text/html" else codes "text/plain"

module _ (env : Env) where
  -- the first part of the body, and the later ones
  unfoldable pub first_part : Email → Part
  unfolding body_part main_body write_multipart
  first_part email =
      if has_both_bodies email
      then (if has_attachments email
          then record {
            header =
                (codes "Content-Type", codes "multipart/alternative; boundary=" ++ env.alt_boundary)
                ∷ [];
            content =
                write_multipart env.alt_boundary (body_part (codes "text/plain") email.body)
                  (body_part (codes "text/html") email.html_body ∷ []);
          }
          else body_part (codes "text/plain") email.body)
      else body_part (main_type (main_body email).1) (main_body email).0

  unfoldable pub later_parts : Email → List Part
  unfolding body_part attachment_parts
  later_parts email =
      (if has_both_bodies email && not (has_attachments email)
        then body_part (codes "text/html") email.html_body ∷ []
        else [])
      ++ attachment_parts email.attachments

  module _ (prefix : Bytes) where
    unfoldable pub has_prefix_header : Bytes → Bool
    unfolding has_header
    has_prefix_header key = if length prefix == 0 then false else has_header prefix key

    -- writeHeader
    unfoldable pub write_header : Bytes → Bytes → List (Bytes × Bytes)
    unfolding has_prefix_header
    write_header key value =
        if bytes_eq value [] || has_prefix_header key then [] else (key, value) ∷ []

    unfoldable pub write_addresses : Bytes → List Bytes → List (Bytes × Bytes)
    unfolding write_header
    write_addresses key [] = []
    write_addresses key (a ∷ rest) = write_header key (format_addresses env.addresses (a ∷ rest))

    unfoldable pub write_reply_to : Bytes → List (Bytes × Bytes)
    unfolding write_addresses
    write_reply_to [] = []
    write_reply_to (c ∷ s) = write_addresses (codes "Reply-To") ((c ∷ s) ∷ [])

    unfoldable pub basic_headers : Email → List (Bytes × Bytes)
    unfolding write_header write_addresses write_reply_to
    basic_headers email =
        write_header (codes "From") (format_address env.addresses email.from)
        ++ (write_addresses (codes "To") email.to
            ++ (write_addresses (codes "Cc") email.cc
                ++ (write_reply_to email.reply_to
                    ++ (write_header (codes "Subject") (encode_header env.q_encode email.subject)
                        ++ write_header (codes "MIME-Version") (codes "1.0")))))

    unfoldable pub generated_headers : Email → List (Bytes × Bytes)
    unfolding write_header
    generated_headers email =
        write_header (codes "Date") env.date
        ++ write_header (codes "Message-ID") (generate_message_id env.random email.from)

    -- `(lower == "date" && wroteDate) || (lower == "message-id" && wroteMessageID)`
    unfoldable pub written_before : Bytes → Bool
    unfolding has_prefix_header
    written_before name =
        (bytes_eq (to_lower env.unicode name) (codes "date")
          && not (has_prefix_header (codes "Date")))
        || (bytes_eq (to_lower env.unicode name) (codes "message-id")
            && not (has_prefix_header (codes "Message-ID")))

    -- the loop over the names of the caller's headers; `look` is the map
    unfoldable pub caller_headers : (Bytes → Bytes) → List Bytes → CallerFields
    unfolding write_header written_before
    caller_headers look [] = legal_fields []
    caller_headers look (name ∷ names) =
        let rest = caller_headers look names in
        if is_reserved env.unicode name
        then rest
        else if written_before name
        then rest
        else if is_valid_header_name name
        then also (write_header name (encode_header env.q_encode (look name))) rest
        else bad_name (non_retryable (some (text [])))

    -- the fields of a message that is not multipart
    unfoldable pub simple_headers : Email → List (Bytes × Bytes)
    unfolding write_header main_body
    simple_headers email =
        write_header (codes "Content-Type")
          (if (main_body email).1 then header_html else header_plain)
        ++ write_header (codes "Content-Transfer-Encoding") (codes "base64")

    abbrev pub multipart_type : Email → Bytes
    multipart_type email =
        (if has_attachments email
          then codes "multipart/mixed; boundary="
          else codes "multipart/alternative; boundary=")
        ++ env.boundary

    abbrev pub is_simple : Email → Bool
    is_simple email = not (has_attachments email) && not (has_both_bodies email)

    abbrev pub message : List (Bytes × Bytes) → Bytes → Built
    message fields body = built (write_fields fields ++ (crlf ++ (body ++ crlf)))

    -- what follows the headers of the caller
    unfoldable pub finish : Email → List (Bytes × Bytes) → Built
    unfolding simple_headers first_part later_parts
    finish email fields =
        if is_simple email
        then message (fields ++ simple_headers email) (write_mime_base64 (main_body email).0)
        else if has_prefix_header (codes "Content-Type")
        then not_built (non_retryable (some (sentinel err_conflicting_content_type)))
        else message (fields ++ write_header (codes "Content-Type") (multipart_type email))
            (write_multipart env.boundary (first_part email) (later_parts email))

    abbrev pub with_caller_headers : Email → CallerFields → Built
    with_caller_headers email (bad_name e) = not_built e
    with_caller_headers email (legal_fields caller) =
        finish email (basic_headers email ++ (generated_headers email ++ caller))

    unfoldable pub build_message : Email → Built
    unfolding caller_headers finish
    build_message email = with_caller_headers email (
        caller_headers (λ name. value_of (field name email.headers))
          (sorted_header_names email.headers))

  unfoldable pub render_message : Email → Built
  unfolding build_message
  render_message email = build_message [] email

  abbrev pub passed : (Bytes → Option Error) → Built → Option Error
  passed fn (built out) = fn out
  passed fn (not_built e) = e

  -- WithMessage, whose buffer comes from the pool and is empty
  unfoldable pub with_message : Email → (Bytes → Option Error) → Option Error
  unfolding build_message
  with_message email fn = passed fn (build_message [] email)
