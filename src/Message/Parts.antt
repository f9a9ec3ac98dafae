-- ===== src/Message/Parts.antt =====
-- utils.go: the bodies and the attachments of a message, read back.
use gsmail.Prelude.{
  ◌≡◌, ◌<◌, refl, ap, ◌∙◌, Bool, true, false, ◌&&◌, not, some, List, [], ◌∷◌, ◌++◌, map, length,
  All, All-append, All-map, arith, Bool-cases, inl, inr,
}
use gsmail.Prelude.Bytes.{Bytes, bytes_eq, codes}
use gsmail.Email.{Attachment, Email}
use gsmail.Identity.{field, is_empty}
use gsmail.Header.Sanitize.{IsLegal, IsPrintable}
use gsmail.Mime.{crlf}
use gsmail.Multipart.{sorted_fields, write_multipart, body_part, attachment_parts}
use gsmail.Multipart.Reader.{read_multipart}
use gsmail.Multipart.Split.{Readable, read_of, read_multipart-write_multipart}
use gsmail.Multipart.Clear.{Plain, no_dash}
use gsmail.Multipart.Safety.{body_part-Plain, attachment_part-Plain, Plain-Readable, differ-Differs}
use gsmail.Multipart.Nested.{nested-Readable}
use gsmail.Headers.{insert_name, sort_strings}
use gsmail.Message.{
  Env, has_attachments, has_both_bodies, main_body, main_type, first_part, later_parts, is_simple,
  render_message,
}
use gsmail.Message.Fields.{LegalEnv, IsPrintable-IsLegal}
use gsmail.Message.Injection.{content_body, read_built, render_message-Sent}

-- The boundaries that mime/multipart makes are printable, as long as each other, and not the same.
pub record TwoBoundaries (env : Env) : Type 0 where
  pub alt_printable : All IsPrintable env.alt_boundary
  pub same_length : length env.alt_boundary ≡ length env.boundary
  pub two : bytes_eq env.alt_boundary env.boundary ≡ false

abbrev pub IsBytes : Bytes → Type 0
IsBytes s = All (λ c. c < 256) s

abbrev pub AreBytes : Attachment → Type 0
AreBytes a = IsBytes a.filename × IsBytes a.content

-- Go's byte slices and strings are bytes.
pub record OfBytes (email : Email) : Type 0 where
  pub body_bytes : IsBytes email.body
  pub html_bytes : IsBytes email.html_body
  pub attachment_bytes : All AreBytes email.attachments

main_body-IsBytes : (email : Email) → OfBytes email → IsBytes (main_body email).0
unfolding main_body
main_body-IsBytes email h =
    elim (Bool-cases (is_empty email.body && not (is_empty email.html_body))) [
      | inl html ↦ rw html h.html_bytes
      | inr plain ↦ rw plain h.body_bytes
    ]

main_type-IsLegal : (html : Bool) → All IsLegal (main_type html)
main_type-IsLegal true = ground arith
main_type-IsLegal false = ground arith

attachment_parts-Plain :
    (as' : List Attachment) → All AreBytes as' → All Plain (attachment_parts as')
unfolding attachment_parts
attachment_parts-Plain [] h = tt
attachment_parts-Plain (a ∷ as') h =
    (attachment_part-Plain a h.0.0 h.0.1, attachment_parts-Plain as' h.1)

plain_body : (email : Email) → OfBytes email → Plain (body_part (codes "text/plain") email.body)
plain_body email h = body_part-Plain (codes "text/plain") email.body (ground arith) h.body_bytes

html_body : (email : Email) → OfBytes email → Plain (body_part (codes "text/html") email.html_body)
html_body email h = body_part-Plain (codes "text/html") email.html_body (ground arith) h.html_bytes

later_parts-Plain : (env : Env) (email : Email) → OfBytes email → All Plain (later_parts env email)
unfolding later_parts
later_parts-Plain env email h =
    let attached = attachment_parts-Plain email.attachments h.attachment_bytes in
    elim (Bool-cases (has_both_bodies email && not (has_attachments email))) [
      | inl alternative ↦ rw alternative (html_body email h, attached)
      | inr other ↦ rw other attached
    ]

module _ (env : Env) (two : TwoBoundaries env) where
  alternative-Readable :
      (email : Email)
      → OfBytes email
      → Readable env.boundary (record {
        header =
            (codes "Content-Type", codes "multipart/alternative; boundary=" ++ env.alt_boundary)
            ∷ [];
        content =
            write_multipart env.alt_boundary
              (body_part (codes "text/plain") email.body)
              (body_part (codes "text/html") email.html_body ∷ []);
      })
  unfolding sorted_fields sort_strings insert_name field bytes_eq no_dash
  alternative-Readable email h =
      nested-Readable env.boundary env.alt_boundary
        (All-map (λ c p. ground (arith, p)) env.alt_boundary two.alt_printable)
        (differ-Differs env.alt_boundary env.boundary two.same_length two.two) _ _ _
        (
          (
            (
              (λ e. cc),
              ground arith,
              All-append IsLegal (codes "multipart/alternative; boundary=") env.alt_boundary
                  (ground arith) (IsPrintable-IsLegal env.alt_boundary two.alt_printable),
            ),
            refl,
          ),
          tt,
        )
        (plain_body email h, (html_body email h, tt))

  first_part-Readable :
      (email : Email) → OfBytes email → Readable env.boundary (first_part env email)
  unfolding first_part
  first_part-Readable email h = elim (Bool-cases (has_both_bodies email)) [
    | inl both ↦ elim (Bool-cases (has_attachments email)) [
      | inl mixed ↦ rw (both, mixed) (alternative-Readable email h)
      | inr alternative ↦
          rw (both, alternative) (Plain-Readable env.boundary _ (plain_body email h))
    ]
    | inr one ↦ rw one (
        Plain-Readable env.boundary _ (
          body_part-Plain (main_type (main_body email).1) (main_body email).0
            (main_type-IsLegal (main_body email).1) (main_body-IsBytes email h)))
  ]

  -- Where a message needs several parts, a receiver that splits the body of what is rendered at the
  -- boundary finds each part with its fields and its content, whatever the bodies, file names and
  -- attachments are. The standard library is taken to be as for the reader of the header, and the
  -- two boundaries to differ, to be as long as each other, and printable.
  pub render_message-parts :
      (legal : LegalEnv env) (email : Email) (fields : List (Bytes × Bytes)) (body : Bytes)
      → OfBytes email
      → is_simple env [] email ≡ false
      → read_built (render_message env email) ≡ some (fields, body)
      → read_multipart env.boundary body
        ≡ some (map read_of (first_part env email ∷ later_parts env email))
  render_message-parts legal email fields body h parts r =
      let (caller, e, same, whole) = render_message-Sent env legal email fields body r in
      ap (read_multipart env.boundary)
        (whole ∙ ap (λ (z : Bytes). z ++ crlf) (multipart_body parts))
      ∙ read_multipart-write_multipart env.boundary crlf (first_part env email)
          (later_parts env email)
          (
            first_part-Readable email h,
            All-map (Plain-Readable env.boundary) (later_parts env email)
                (later_parts-Plain env email h),
          )
    where
      multipart_body :
          is_simple env [] email ≡ false
          → content_body env email
            ≡ write_multipart env.boundary (first_part env email) (later_parts env email)
      multipart_body e = rw e refl
