-- ===== src/Message/Injection.antt =====
-- utils.go: the header of a message, read back.
use mathlib.Core.Path.{subst}
use gsmail.Prelude.{
  ◌≡◌, ◌≢◌, refl, sym, ap, ◌∙◌, Bool, true, false, Option, none, some, List, [], ◌++◌, All,
  All-append, arith, Bool-cases, inl, inr, if◌then◌else◌,
}
use gsmail.Prelude.Bytes.{Bytes, codes}
use gsmail.Email.{Email}
use gsmail.Identity.{field}
use gsmail.Header.Sanitize.{IsLegal}
use gsmail.Headers.{sorted_header_names, value_of}
use gsmail.Mime.{crlf, write_mime_base64}
use gsmail.Multipart.{write_fields, write_multipart}
use gsmail.Message.{
  Env, CallerFields, legal_fields, bad_name, Built, built, not_built, has_attachments, main_body,
  header_html, header_plain, first_part, later_parts, has_prefix_header, write_header,
  basic_headers, generated_headers, caller_headers, simple_headers, multipart_type, is_simple,
  with_caller_headers, finish, build_message, render_message,
}
use gsmail.Message.Fields.{
  LegalEnv, IsPrintable-IsLegal, named, AllFields, basic_headers-IsField, generated_headers-IsField,
  caller_headers-IsField,
}
use gsmail.Message.Reader.{IsField, read_message, read_message-write_fields}

-- what a receiver finds in what is built
unfoldable pub read_built : Built → Option (List (Bytes × Bytes) × Bytes)
unfolding read_message
read_built (built out) = read_message out
read_built (not_built e) = none

abbrev headers_of : Option (List (Bytes × Bytes) × Bytes) → List (Bytes × Bytes)
headers_of none = []
headers_of (some p) = p.0

abbrev body_of : Option (List (Bytes × Bytes) × Bytes) → Bytes
body_of none = []
body_of (some p) = p.1

none≢some : {p : List (Bytes × Bytes) × Bytes} → none ≢ some p
none≢some e = cc

module _ (env : Env) where
  abbrev pub caller_fields : Email → CallerFields
  caller_fields email =
      caller_headers env [] (λ name. value_of (field name email.headers))
        (sorted_header_names email.headers)

  -- the fields by which the message says how its body is to be read
  abbrev pub content_headers : Email → List (Bytes × Bytes)
  content_headers email =
      if is_simple env [] email
      then simple_headers env [] email
      else write_header env [] (codes "Content-Type") (multipart_type env [] email)

  abbrev pub content_body : Email → Bytes
  content_body email =
      if is_simple env [] email
      then write_mime_base64 (main_body email).0
      else write_multipart env.boundary (first_part env email) (later_parts env email)

  abbrev pub sent_headers : Email → List (Bytes × Bytes) → List (Bytes × Bytes)
  sent_headers email caller =
      (basic_headers env [] email ++ (generated_headers env [] email ++ caller))
      ++ content_headers email

  pub finish_lem :
      (email : Email) (fields : List (Bytes × Bytes))
      → finish env [] email fields
        ≡ built (
            write_fields (fields ++ content_headers email)
            ++ (crlf ++ (content_body email ++ crlf)))
  unfolding finish has_prefix_header
  finish_lem email fields = elim (Bool-cases (is_simple env [] email)) [
    | inl simple ↦ rw simple refl
    | inr parts ↦ rw parts refl
  ]

  module _ (legal : LegalEnv env) where
    main_type-IsLegal : (html : Bool) → All IsLegal (if html then header_html else header_plain)
    main_type-IsLegal true = ground arith
    main_type-IsLegal false = ground arith

    multipart_type-IsLegal :
        (mixed : Bool)
        → All IsLegal (
            (if mixed
              then codes "multipart/mixed; boundary="
              else codes "multipart/alternative; boundary=")
            ++ env.boundary)
    multipart_type-IsLegal true =
        All-append IsLegal (codes "multipart/mixed; boundary=") env.boundary (ground arith)
          (IsPrintable-IsLegal env.boundary legal.boundary_printable)
    multipart_type-IsLegal false =
        All-append IsLegal (codes "multipart/alternative; boundary=") env.boundary (ground arith)
          (IsPrintable-IsLegal env.boundary legal.boundary_printable)

    content_headers-IsField : (email : Email) → All IsField (content_headers email)
    unfolding simple_headers
    content_headers-IsField email = elim (Bool-cases (is_simple env [] email)) [
      | inl simple ↦ rw simple (
          All-append IsField _ _
            (named env [] (codes "Content-Type") _ (λ e. cc) (ground arith)
              (main_type-IsLegal (main_body email).1))
            (named env [] (codes "Content-Transfer-Encoding") (codes "base64") (λ e. cc)
              (ground arith) (ground arith)))
      | inr parts ↦ rw parts (
          named env [] (codes "Content-Type") _ (λ e. cc) (ground arith)
            (multipart_type-IsLegal (has_attachments email)))
    ]

    with_caller_headers-reads :
        (email : Email) (caller : List (Bytes × Bytes))
        → All IsField caller
        → read_built (with_caller_headers env [] email (legal_fields caller))
          ≡ some (sent_headers email caller, content_body email ++ crlf)
    unfolding read_built
    with_caller_headers-reads email caller h =
        ap read_built (
          finish_lem email
            (basic_headers env [] email ++ (generated_headers env [] email ++ caller)))
        ∙ read_message-write_fields (sent_headers email caller) (content_body email ++ crlf) (
            All-append IsField _ _
              (All-append IsField _ _ (basic_headers-IsField env [] legal email)
                (All-append IsField _ _ (generated_headers-IsField env [] legal email) h))
              (content_headers-IsField email))

    -- Where the caller's header fields are accepted as `caller`, a reader of the rendered message,
    -- line by line up to the empty line, finds exactly the library's fields, `caller` and the
    -- content fields, then the body: no address, subject, header value or From adds a field. The
    -- standard library's parser and Q-encoding are taken to bring no control character but the tab
    -- into a text that has none, and the date and the boundary to be printable.
    pub render_message-reads :
        (email : Email) (caller : List (Bytes × Bytes))
        → caller_fields email ≡ legal_fields caller
        → read_built (render_message env email)
          ≡ some (sent_headers email caller, content_body email ++ crlf)
    unfolding render_message build_message
    render_message-reads email caller e =
        let fields = subst (AllFields IsField) e (
          caller_headers-IsField env [] legal (λ name. value_of (field name email.headers))
            (sorted_header_names email.headers)) in
        ap (λ f. read_built (with_caller_headers env [] email f)) e
        ∙ with_caller_headers-reads email caller fields

    -- What a receiver reads is what was put together.
    abbrev pub Sent : Email → List (Bytes × Bytes) → Bytes → Type 0
    Sent email fields body =
        (caller : List (Bytes × Bytes)) × (caller_fields email ≡ legal_fields caller)
        × (fields ≡ sent_headers email caller)
        × (body ≡ content_body email ++ crlf)

    by_caller_fields :
        (email : Email) (c : CallerFields) (fields : List (Bytes × Bytes)) (body : Bytes)
        → caller_fields email ≡ c
        → read_built (render_message env email) ≡ some (fields, body)
        → Sent email fields body
    unfolding render_message build_message read_built
    by_caller_fields email (bad_name err) fields body e r =
        absurd (none≢some (sym (ap (λ f. read_built (with_caller_headers env [] email f)) e) ∙ r))
    by_caller_fields email (legal_fields caller) fields body e r =
        let same = sym r ∙ render_message-reads email caller e in
        (caller, e, ap headers_of same, ap body_of same)

    pub render_message-Sent :
        (email : Email) (fields : List (Bytes × Bytes)) (body : Bytes)
        → read_built (render_message env email) ≡ some (fields, body)
        → Sent email fields body
    render_message-Sent email fields body r =
        by_caller_fields email (caller_fields email) fields body refl r
