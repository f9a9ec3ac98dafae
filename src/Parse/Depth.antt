-- ===== src/Parse/Depth.antt =====
-- utils.go: how deep the containers of a message may be nested.
use gsmail.Prelude.{
  ℕ, zero, suc, ◌≤◌, ◌≡◌, refl, ap, ◌∙◌, true, false, Option, some, List, ◌∷◌, arith,
}
use gsmail.Prelude.Bytes.{Bytes, codes}
use gsmail.Errors.{Error, sentinel, err_too_deeply_nested}
use gsmail.Text.Search.{has_prefix}
use gsmail.Email.{Email}
use gsmail.Identity.{is_empty}
use gsmail.Parse.{
  Stream, Entity, MimeLibrary, max_multipart_depth, process_part, process_parts, parse_multipart,
  header_email, parse_entity, or_plain,
}

module _ (lib : MimeLibrary) where
  abbrev pub boundary_of : Entity → Bytes
  boundary_of p =
      (lib.parse_media_type (p.header.get (codes "Content-Type"))).param (codes "boundary")

  abbrev pub IsContainer : Entity → Type 0
  IsContainer p =
      has_prefix (lib.parse_media_type (p.header.get (codes "Content-Type"))).media_type
        (codes "multipart/")
      ≡ true

  -- A container with a boundary, whose first part is one, and so on, so many levels down.
  unfoldable pub Nested : ℕ → Stream → Bytes → Type 0
  Nested zero r boundary = Unit
  Nested (suc n) r boundary =
      (is_empty boundary ≡ false)
      × ((p : Entity) × (ps : List Entity) × ((lib.parts r boundary).0 ≡ p ∷ ps)
          × IsContainer p
          × Nested n p.stream (boundary_of p))

  process_parts-stops :
      (f : Email → Entity → Email × Option Error) (email : Email) (p : Entity) (ps : List Entity)
      (end : Option Error) (e : Error)
      → (f email p).1 ≡ some e
      → (process_parts lib f email (p ∷ ps) end).1 ≡ some e
  unfolding process_parts
  process_parts-stops f email p ps end e h = rw (h, process_parts) refl

  process_part-container :
      (nested : Email → Stream → Bytes → Email × Option Error) (email : Email) (p : Entity)
      → IsContainer p
      → process_part lib nested email p ≡ nested email p.stream (boundary_of p)
  unfolding process_part
  process_part-container nested email p h = rw h refl

  pub parse_multipart-Nested :
      (levels n : ℕ) (email : Email) (r : Stream) (boundary : Bytes)
      → levels ≤ n
      → Nested n r boundary
      → (parse_multipart lib levels email r boundary).1 ≡ some (sentinel err_too_deeply_nested)
  unfolding parse_multipart Nested
  parse_multipart-Nested zero n email r boundary h k = refl
  parse_multipart-Nested (suc levels) zero email r boundary h k = absurd (omega (arith, h))
  parse_multipart-Nested (suc levels) (suc n) email r boundary h
        (given, (p, ps, e, container, deeper)) =
      let process = process_part lib (parse_multipart lib levels) in
      let inner =
        ap (λ (z : Email × Option Error). z.1)
          (process_part-container (parse_multipart lib levels) email p container)
        ∙ parse_multipart-Nested levels n email p.stream (boundary_of p) (omega (arith, h))
            deeper in
      rw given (
        ap (λ z. (process_parts lib process email z (lib.parts r boundary).1).1) e
        ∙ process_parts-stops process email p ps (lib.parts r boundary).1
            (sentinel err_too_deeply_nested) inner)

  -- A multipart message whose first part is a container with a boundary, and so on ten levels down,
  -- is refused with ErrTooDeeplyNested, where each container has a boundary and its media type is
  -- read without an error.
  pub parse_entity-Nested :
      (msg : Entity)
      → (lib.parse_media_type (or_plain lib (msg.header.get (codes "Content-Type")))).malformed
        ≡ false
      → has_prefix
          (lib.parse_media_type (or_plain lib (msg.header.get (codes "Content-Type")))).media_type
          (codes "multipart/")
        ≡ true
      → Nested max_multipart_depth msg.stream (
          (lib.parse_media_type (or_plain lib (msg.header.get (codes "Content-Type")))).param
            (codes "boundary"))
      → (parse_entity lib msg).1 ≡ some (sentinel err_too_deeply_nested)
  unfolding parse_entity
  parse_entity-Nested msg fine container deep =
      rw (fine, container)
        (parse_multipart-Nested 10 10 (header_email lib msg.header) msg.stream _ (omega arith) deep)
