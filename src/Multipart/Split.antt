-- ===== src/Multipart/Split.antt =====
-- utils.go: the parts of a multipart body are found again, where no line of them begins as a boundary.
use gsmail.Prelude.{
  ℕ, zero, suc, ◌≤◌, ◌≡◌, refl, ap, ◌∙◌, true, false, some, List, [], ◌∷◌, ◌++◌, map, append_assoc,
  length, length-append, All, arith,
}
use gsmail.Prelude.Bytes.{Bytes}
use gsmail.Text.Search.{has_prefix}
use gsmail.Mime.{crlf}
use gsmail.Message.Reader.{IsField, read_message, read_message-write_fields}
use gsmail.Multipart.{
  Part, delimiter, write_fields, sorted_fields, write_part, write_rest, write_multipart,
}
use gsmail.Multipart.Reader.{
  separator, split_on, ReadPart, add_part, read_parts, read_multipart, Clear, has_prefix_self,
  drop_self, split_on-separator,
}

-- the beginning of a line that is a boundary
abbrev pub dashed : Bytes → Bytes
dashed b = b'-' ∷ b'-' ∷ b

abbrev pub part_text : Part → Bytes
part_text p = write_fields (sorted_fields p.header) ++ (crlf ++ p.content)

abbrev pub read_of : Part → ReadPart
read_of p = (sorted_fields p.header, p.content)

-- The fields are those that a reader finds, and the boundary does not begin a line of the part.
pub record Readable (b : Bytes) (p : Part) : Type 0 where
  pub fields : All IsField (sorted_fields p.header)
  pub clear : (z : Bytes) → Clear (separator b) (part_text p) (separator b ++ z)

module _ (b after : Bytes) where
  -- what follows a separator
  tail : List Part → Bytes
  tail [] = b'-' ∷ b'-' ∷ (crlf ++ after)
  tail (p ∷ parts) = crlf ++ (part_text p ++ (write_rest b parts ++ after))

  write_rest-tail : (parts : List Part) → write_rest b parts ++ after ≡ separator b ++ tail parts
  unfolding write_rest tail write_part
  write_rest-tail [] =
      ap (λ z. crlf ++ (b'-' ∷ b'-' ∷ z)) (append_assoc b (b'-' ∷ b'-' ∷ crlf) after)
  write_rest-tail (p ∷ parts) =
      append_assoc (delimiter false b ++ part_text p) (write_rest b parts) after
      ∙ append_assoc (delimiter false b) (part_text p) (write_rest b parts ++ after)
      ∙ ap (λ z. crlf ++ (b'-' ∷ b'-' ∷ z))
          (append_assoc b crlf (part_text p ++ (write_rest b parts ++ after)))

  read_parts-split :
      (n : ℕ) (s text z : Bytes)
      → split_on (separator b) s ≡ some (text, z)
      → read_parts (suc n) b (crlf ++ s) ≡ add_part (read_message text) (read_parts n b z)
  unfolding read_parts has_prefix
  read_parts-split n s text z e = rw (e, read_parts) refl

  read_parts-part :
      (n : ℕ) (text z : Bytes)
      → Clear (separator b) text (separator b ++ z)
      → read_parts (suc n) b (crlf ++ (text ++ (separator b ++ z)))
        ≡ add_part (read_message text) (read_parts n b z)
  read_parts-part n text z h =
      read_parts-split n (text ++ (separator b ++ z)) text z (split_on-separator b text z h)

  length-tail : (parts : List Part) → 2 ≤ length (tail parts)
  unfolding tail
  length-tail [] = omega arith
  length-tail (p ∷ parts) = omega arith

  read_closed : (n : ℕ) → read_parts (suc n) b (tail []) ≡ some []
  unfolding read_parts tail has_prefix
  read_closed n = refl

  tail-shape :
      (p : Part) (parts : List Part)
      → tail (p ∷ parts) ≡ crlf ++ (part_text p ++ (separator b ++ tail parts))
  unfolding tail
  tail-shape p parts = ap (λ z. crlf ++ (part_text p ++ z)) (write_rest-tail parts)

  read_parts-tail :
      (n : ℕ) (parts : List Part)
      → All (Readable b) parts
      → length (tail parts) ≤ n
      → read_parts n b (tail parts) ≡ some (map read_of parts)
  read_parts-tail zero parts h k = absurd (omega (arith, k, length-tail parts))
  read_parts-tail (suc n) [] h k = read_closed n
  read_parts-tail (suc n) (p ∷ parts) h k =
      let shape = tail-shape p parts in
      let shorter : length (tail parts) ≤ n = omega (
        arith,
        k,
        ap length shape,
        length-append (part_text p) (separator b ++ tail parts),
        length-append (separator b) (tail parts),
      ) in
      ap (read_parts (suc n) b) shape
      ∙ read_parts-part n (part_text p) (tail parts) (h.0.clear (tail parts))
      ∙ ap (λ o. add_part o (read_parts n b (tail parts)))
          (read_message-write_fields (sorted_fields p.header) p.content h.0.fields)
      ∙ ap (add_part (some (read_of p))) (read_parts-tail n parts h.1 shorter)

  read_multipart-dashed :
      (z : Bytes) → read_multipart b (dashed b ++ z) ≡ read_parts (length (dashed b ++ z)) b z
  unfolding read_multipart
  read_multipart-dashed z =
      rw (has_prefix_self (dashed b) z) (ap (read_parts (length (dashed b ++ z)) b) (drop_self b z))

  -- Each part is found again, with its fields and its content, whatever follows the body.
  pub read_multipart-write_multipart :
      (p : Part) (parts : List Part)
      → All (Readable b) (p ∷ parts)
      → read_multipart b (write_multipart b p parts ++ after) ≡ some (map read_of (p ∷ parts))
  unfolding write_multipart write_part tail
  read_multipart-write_multipart p parts h =
      let shape =
        append_assoc (delimiter true b ++ part_text p) (write_rest b parts) after
        ∙ append_assoc (delimiter true b) (part_text p) (write_rest b parts ++ after)
        ∙ ap (λ z. b'-' ∷ b'-' ∷ z)
            (append_assoc b crlf (part_text p ++ (write_rest b parts ++ after))) in
      ap (read_multipart b) shape
      ∙ read_multipart-dashed (tail (p ∷ parts))
      ∙ read_parts-tail (length (dashed b ++ tail (p ∷ parts))) (p ∷ parts) h
          (omega (arith, length-append (dashed b) (tail (p ∷ parts))))
