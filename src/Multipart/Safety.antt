-- ===== src/Multipart/Safety.antt =====
-- utils.go: the bodies and the attachments of a message as parts that a receiver finds again.
use gsmail.Prelude.{
  ◌≡◌, ◌<◌, refl, false, [], ◌∷◌, ◌++◌, length, ◌==◌, All, All-append, All-map, arith, Bool-cases,
  inl, inr,
}
use gsmail.Prelude.Bytes.{Bytes, bytes_eq, codes}
use gsmail.Text.Search.{has_prefix}
use gsmail.Email.{Attachment}
use gsmail.Identity.{field}
use gsmail.Header.{sanitize_header_value, format_disposition}
use gsmail.Header.Sanitize.{IsLegal, IsPrintable, sanitize_header_value-IsLegal}
use gsmail.Header.Disposition.{format_disposition-IsPrintable}
use gsmail.Headers.{before, insert_name, sort_strings}
use gsmail.Multipart.{
  Part, sorted_fields, body_part, attachment_part, or_octet_stream, content_id_fields,
  disposition_kind,
}
use gsmail.Multipart.Reader.{separator}
use gsmail.Multipart.Split.{Readable}
use gsmail.Multipart.Clear.{no_dash, IsPartField, Plain, Plain-base64, plain-text}

pub body_part-Plain :
    (media_type body : Bytes)
    → All IsLegal media_type
    → All (λ c. c < 256) body
    → Plain (body_part media_type body)
unfolding body_part sorted_fields sort_strings insert_name before field bytes_eq no_dash
body_part-Plain media_type body h k =
    Plain-base64 _ body
      (
        (((λ e. cc), ground arith, ground arith), refl),
        ((((λ e. cc), ground arith, All-append IsLegal media_type _ h (ground arith)), refl), tt),
      )
      k

or_octet_stream-IsLegal : (s : Bytes) → All IsLegal s → All IsLegal (or_octet_stream s)
or_octet_stream-IsLegal [] h = ground arith
or_octet_stream-IsLegal (c ∷ s) h = h

disposition-IsLegal :
    (kind name : Bytes)
    → All IsPrintable kind
    → All (λ c. c < 256) name
    → All IsLegal (format_disposition kind name)
disposition-IsLegal kind name hk hn =
    All-map (λ c p. ground (arith, p)) _ (format_disposition-IsPrintable kind name hk hn)

attachment_fields :
    (content_type content_id name : Bytes)
    → All (λ c. c < 256) name
    → All IsPartField (
        sorted_fields (
          (codes "Content-Type", or_octet_stream (sanitize_header_value content_type))
          ∷ (codes "Content-Transfer-Encoding", codes "base64")
          ∷ (content_id_fields content_id
              ++ (
                codes "Content-Disposition",
                format_disposition (disposition_kind content_id) name,
              )
                ∷ [])))
unfolding sorted_fields sort_strings insert_name before field bytes_eq no_dash
attachment_fields content_type [] name h = (
  (((λ e. cc), ground arith, disposition-IsLegal (codes "attachment") name (ground arith) h), refl),
  (
    (((λ e. cc), ground arith, ground arith), refl),
    (
      (
        (
          (λ e. cc),
          ground arith,
          or_octet_stream-IsLegal _ (sanitize_header_value-IsLegal content_type),
        ),
        refl,
      ),
      tt,
    ),
  ),
)
attachment_fields content_type (c ∷ s) name h = (
  (((λ e. cc), ground arith, disposition-IsLegal (codes "inline") name (ground arith) h), refl),
  (
    (
      (
        (λ e. cc),
        ground arith,
        (
          ground arith,
          All-append IsLegal (sanitize_header_value (c ∷ s)) _
              (sanitize_header_value-IsLegal (c ∷ s)) (ground arith),
        ),
      ),
      refl,
    ),
    (
      (((λ e. cc), ground arith, ground arith), refl),
      (
        (
          (
            (λ e. cc),
            ground arith,
            or_octet_stream-IsLegal _ (sanitize_header_value-IsLegal content_type),
          ),
          refl,
        ),
        tt,
      ),
    ),
  ),
)

pub attachment_part-Plain :
    (a : Attachment)
    → All (λ c. c < 256) a.filename
    → All (λ c. c < 256) a.content
    → Plain (attachment_part a)
unfolding attachment_part
attachment_part-Plain a h k =
    Plain-base64 _ a.content (attachment_fields a.content_type a.content_id a.filename h) k

pub Plain-Readable : (b : Bytes) (p : Part) → Plain p → Readable b p
unfolding no_dash
Plain-Readable b p h = record {
  fields = All-map (λ f g. g.0) _ h.fields;
  clear = λ z. plain-text b p (separator b ++ z) h refl;
}

-- No text that begins with the one boundary begins with the other.
abbrev pub Differs : Bytes → Bytes → Type 0
Differs inner b = (y : Bytes) → has_prefix (inner ++ y) b ≡ false

pub differ-Differs :
    (inner b : Bytes) → length inner ≡ length b → bytes_eq inner b ≡ false → Differs inner b
unfolding has_prefix bytes_eq
differ-Differs [] [] h k y = cc
differ-Differs [] (d ∷ b) h k y = absurd (omega (arith, h))
differ-Differs (c ∷ inner) [] h k y = absurd (omega (arith, h))
differ-Differs (c ∷ inner) (d ∷ b) h k y = elim (Bool-cases (c == d)) [
  | inl same ↦
      let differ : bytes_eq inner b ≡ false = ground (arith, k, same) in
      rw same (differ-Differs inner b (omega (arith, h)) differ y)
  | inr other ↦ rw other refl
]
