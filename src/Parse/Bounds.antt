-- ===== src/Parse/Bounds.antt =====
-- utils.go: how much of a message parsing keeps.
use gsmail.Prelude.{
  ℕ, zero, suc, ◌+◌, ◌*◌, ◌≤◌, ◌||◌, not, Option, none, some, List, [], ◌∷◌, length, ltb, All,
  All-append, arith, Bool-cases, Option-cases, inl, inr,
}
use gsmail.Prelude.Bytes.{Bytes, bytes_eq, codes}
use gsmail.Errors.{Error}
use gsmail.Text.Search.{has_prefix}
use gsmail.Email.{Email}
use gsmail.Identity.{is_empty}
use gsmail.Parse.{
  Stream, Entity, MimeLibrary, max_part_size, limit, Read, data_read, read_error, sized,
  read_limited, data_of, parse_fallback_body, decoder, decode_part, attach, store_part, store_read,
  process_part, process_parts, parse_multipart, header_email, with_body, or_plain, parse_entity,
  parse_read, parse_raw_email,
}

abbrev pub IsSmall : Bytes → Type 0
IsSmall s = length s ≤ max_part_size

-- No body and no attachment is larger than a part may be.
pub record IsBounded (email : Email) : Type 0 where
  pub body_small : IsSmall email.body
  pub html_small : IsSmall email.html_body
  pub attachments_small : All (λ a. IsSmall a.content) email.attachments

abbrev ReadSmall : Read → Type 0
ReadSmall (data_read b) = IsSmall b
ReadSmall (read_error e) = Unit

sized-ReadSmall : (b : Bytes) (o : Option Error) → ReadSmall (sized b o)
sized-ReadSmall b (some e) = tt
sized-ReadSmall b none = elim (Bool-cases (ltb max_part_size (length b))) [
  | inl large ↦ rw large tt
  | inr small ↦ rw small (ground (arith, small))
]

read_limited-ReadSmall : (s : Stream) → ReadSmall (read_limited s)
unfolding read_limited
read_limited-ReadSmall s =
    let l = limit (max_part_size + 1) s in sized-ReadSmall l.content l.failure

data_of-IsSmall : (r : Read) → ReadSmall r → IsSmall (data_of r)
data_of-IsSmall (data_read b) h = h
data_of-IsSmall (read_error e) h = omega arith

module _ (lib : MimeLibrary) where
  attach-IsBounded :
      (email : Email) (f t i b : Bytes)
      → IsBounded email
      → IsSmall b
      → IsBounded (attach lib email f t i b)
  attach-IsBounded email f t i b h k = record {
    body_small = h.body_small;
    html_small = h.html_small;
    attachments_small =
        All-append (λ a. IsSmall a.content) email.attachments _ h.attachments_small (k, tt);
  }

  store_part-IsBounded :
      (email : Email) (p : Entity) (b : Bytes)
      → IsBounded email
      → IsSmall b
      → IsBounded (store_part lib email p b)
  unfolding store_part
  store_part-IsBounded email p b h k =
      let media = (lib.parse_media_type (p.header.get (codes "Content-Type"))).media_type in
      let disposition = lib.parse_media_type (p.header.get (codes "Content-Disposition")) in
      elim (Bool-cases (
        bytes_eq disposition.media_type (codes "attachment")
        || bytes_eq disposition.media_type (codes "inline")
        || not (is_empty (disposition.param (codes "filename"))))) [
          | inl attached ↦ rw attached (attach-IsBounded email _ _ _ b h k)
          | inr other ↦ elim (Bool-cases (bytes_eq media (codes "text/plain"))) [
            | inl plain ↦
                rw (other, plain)
                  (record {
                    body_small = k;
                    html_small = h.html_small;
                    attachments_small = h.attachments_small;
                  })
            | inr rich ↦ elim (Bool-cases (bytes_eq media (codes "text/html"))) [
              | inl html ↦
                  rw (other, rich, html)
                    (record {
                      body_small = h.body_small;
                      html_small = k;
                      attachments_small = h.attachments_small;
                    })
              | inr unknown ↦ rw (other, rich, unknown) (attach-IsBounded email _ _ _ b h k)
            ]
          ]
        ]

  -- What holds of a message whatever part of a bounded size is stored.
  abbrev pub Stored : (Email → Type 0) → Type 0
  Stored P =
      (email : Email) (p : Entity) (b : Bytes) → P email → IsSmall b → P (store_part lib email p b)

  module _ (P : Email → Type 0) (stored : Stored P) where
    store_read-Stored :
        (email : Email) (p : Entity) (r : Read)
        → P email
        → ReadSmall r
        → P (store_read lib email p r).0
    store_read-Stored email p (read_error e) h k = h
    store_read-Stored email p (data_read b) h k = stored email p b h k

    process_part-Stored :
        (nested : Email → Stream → Bytes → Email × Option Error)
        → ((email : Email) (r : Stream) (b : Bytes) → P email → P (nested email r b).0)
        → (email : Email) (p : Entity) → P email
        → P (process_part lib nested email p).0
    unfolding process_part decode_part
    process_part-Stored nested k email p h =
        let media = lib.parse_media_type (p.header.get (codes "Content-Type")) in
        elim (Bool-cases (has_prefix media.media_type (codes "multipart/"))) [
          | inl container ↦ rw container (k email p.stream (media.param (codes "boundary")) h)
          | inr leaf ↦ rw leaf (
              store_read-Stored email p _ h (
                read_limited-ReadSmall (
                  decoder lib (p.header.get (codes "Content-Transfer-Encoding"))
                    (limit (2 * max_part_size) p.stream))))
        ]

    process_parts-Stored :
        (f : Email → Entity → Email × Option Error) (email : Email) (ps : List Entity)
        (end : Option Error)
        → ((email : Email) (p : Entity) → P email → P (f email p).0)
        → P email
        → P (process_parts lib f email ps end).0
    unfolding process_parts
    process_parts-Stored f email [] end k h = h
    process_parts-Stored f email (p ∷ ps) end k h = elim (Option-cases (f email p).1) [
      | inl go ↦
          rw (go, process_parts) (process_parts-Stored f (f email p).0 ps end k (k email p h))
      | inr stop ↦ rw (stop.1, process_parts) (k email p h)
    ]

    parse_multipart-Stored :
        (levels : ℕ) (email : Email) (r : Stream) (boundary : Bytes)
        → P email
        → P (parse_multipart lib levels email r boundary).0
    unfolding parse_multipart
    parse_multipart-Stored zero email r boundary h = h
    parse_multipart-Stored (suc levels) email r boundary h = elim (Bool-cases (is_empty boundary)) [
      | inl missing ↦ rw missing h
      | inr given ↦ rw given (
          process_parts-Stored (process_part lib (parse_multipart lib levels)) email
            (lib.parts r boundary).0 (lib.parts r boundary).1
            (process_part-Stored (parse_multipart lib levels) (parse_multipart-Stored levels)) h)
    ]

  -- The body of a message that is not multipart.
  abbrev pub Filled : (Email → Type 0) → Type 0
  Filled P = (email : Email) (b : Bytes) → P email → IsSmall b → P (record email { body = b })

  module _ (P : Email → Type 0) (stored : Stored P) (filled : Filled P) where
    with_body-Filled :
        (email : Email) (r : Read) → P email → ReadSmall r → P (with_body lib email r).0
    with_body-Filled email (data_read b) h k = filled email b h k
    with_body-Filled email (read_error e) h k = filled email [] h (omega arith)

    pub parse_entity-Filled :
        (msg : Entity) → P (header_email lib msg.header) → P (parse_entity lib msg).0
    unfolding parse_entity parse_fallback_body decode_part
    parse_entity-Filled msg h =
        let email = header_email lib msg.header in
        let media = lib.parse_media_type (or_plain lib (msg.header.get (codes "Content-Type"))) in
        elim (Bool-cases media.malformed) [
          | inl malformed ↦ rw malformed (
              filled email _ h
                (data_of-IsSmall (read_limited msg.stream) (read_limited-ReadSmall msg.stream)))
          | inr fine ↦ elim (Bool-cases (has_prefix media.media_type (codes "multipart/"))) [
            | inl parts ↦
                rw (fine, parts)
                  (parse_multipart-Stored P stored 10 email msg.stream
                    (media.param (codes "boundary")) h)
            | inr single ↦
                rw (fine, single)
                  (with_body-Filled email _ h (
                    read_limited-ReadSmall (
                      decoder lib (msg.header.get (codes "Content-Transfer-Encoding"))
                        (limit (2 * max_part_size) msg.stream))))
          ]
        ]

  parse_read-IsBounded : (o : Option Entity) → IsBounded (parse_read lib o).0
  unfolding header_email
  parse_read-IsBounded none = record {
    body_small = omega arith;
    html_small = omega arith;
    attachments_small = tt;
  }
  parse_read-IsBounded (some msg) =
      parse_entity-Filled IsBounded store_part-IsBounded
        (λ email b h k. record {
          body_small = k;
          html_small = h.html_small;
          attachments_small = h.attachments_small;
        })
        msg (record { body_small = omega arith; html_small = omega arith; attachments_small = tt })

  -- Whatever the message and the standard library's readers, also where parsing fails: no body and
  -- no attachment that ParseRawEmail returns is longer than maxPartSize.
  pub parse_raw_email-IsBounded : (raw : Bytes) → IsBounded (parse_raw_email lib raw).0
  unfolding parse_raw_email
  parse_raw_email-IsBounded raw = parse_read-IsBounded (lib.read_message raw)
