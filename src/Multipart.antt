-- ===== src/Multipart.antt =====
-- utils.go: the parts of a multipart body, as multipart.Writer of the standard library writes them.
pub mod Reader
pub mod Split
pub mod Clear
pub mod Safety
pub mod Nested
use gsmail.Prelude.{ℕ, Bool, true, false, List, [], ◌∷◌, ◌++◌, map, if◌then◌else◌}
use gsmail.Prelude.Bytes.{Bytes, bytes_eq, codes}
use gsmail.Email.{Attachment}
use gsmail.Header.{sanitize_header_value, format_disposition}
use gsmail.Headers.{sort_strings, value_of}
use gsmail.Identity.{field}
use gsmail.Mime.{crlf, write_mime_base64}

-- `key: value` and the end of the line
unfoldable pub field_line : Bytes → Bytes → Bytes
field_line key value = key ++ (codes ": " ++ (value ++ crlf))

unfoldable pub write_fields : List (Bytes × Bytes) → Bytes
unfolding field_line
write_fields [] = []
write_fields ((key, value) ∷ fields) = field_line key value ++ write_fields fields

-- A part: its header, a map with one value for each key, and what is written into it.
pub record Part : Type 0 where
  pub header : List (Bytes × Bytes)
  pub content : Bytes

-- the fields of a map, in the order of the keys
unfoldable pub sorted_fields : List (Bytes × Bytes) → List (Bytes × Bytes)
unfolding sort_strings
sorted_fields h = map (λ name. (name, value_of (field name h))) (sort_strings (map (λ f. f.0) h))

-- what CreatePart writes before the header, by whether the part is the first
abbrev pub delimiter : Bool → Bytes → Bytes
delimiter first boundary =
    let line = b'-' ∷ b'-' ∷ (boundary ++ crlf) in if first then line else crlf ++ line

-- CreatePart, and what is written into the part
unfoldable pub write_part : Bool → Bytes → Part → Bytes
unfolding write_fields sorted_fields
write_part first boundary p =
    delimiter first boundary ++ (write_fields (sorted_fields p.header) ++ (crlf ++ p.content))

-- the later parts, and Close
unfoldable pub write_rest : Bytes → List Part → Bytes
unfolding write_part
write_rest boundary [] = crlf ++ (b'-' ∷ b'-' ∷ (boundary ++ (b'-' ∷ b'-' ∷ crlf)))
write_rest boundary (p ∷ parts) = write_part false boundary p ++ write_rest boundary parts

unfoldable pub write_multipart : Bytes → Part → List Part → Bytes
unfolding write_part write_rest
write_multipart boundary p parts = write_part true boundary p ++ write_rest boundary parts

-- writeBodyPart
unfoldable pub body_part : Bytes → Bytes → Part
unfolding write_mime_base64
body_part media_type body = record {
  header =
      (codes "Content-Type", media_type ++ codes "; charset=\"UTF-8\"")
      ∷ (codes "Content-Transfer-Encoding", codes "base64")
      ∷ [];
  content = write_mime_base64 body;
}

abbrev pub or_octet_stream : Bytes → Bytes
or_octet_stream [] = codes "application/octet-stream"
or_octet_stream (c ∷ s) = c ∷ s

-- the field Content-ID of an attachment that has one, and the kind of its disposition
abbrev pub content_id_fields : Bytes → List (Bytes × Bytes)
content_id_fields [] = []
content_id_fields (c ∷ s) =
    (codes "Content-ID", b'<' ∷ (sanitize_header_value (c ∷ s) ++ b'>' ∷ [])) ∷ []

abbrev pub disposition_kind : Bytes → Bytes
disposition_kind [] = codes "attachment"
disposition_kind (c ∷ s) = codes "inline"

-- writeAttachmentPart
unfoldable pub attachment_part : Attachment → Part
unfolding write_mime_base64
attachment_part att = record {
  header =
      (codes "Content-Type", or_octet_stream (sanitize_header_value att.content_type))
      ∷ (codes "Content-Transfer-Encoding", codes "base64")
      ∷ (content_id_fields att.content_id
          ++ (
            codes "Content-Disposition",
            format_disposition (disposition_kind att.content_id) att.filename,
          )
            ∷ []);
  content = write_mime_base64 att.content;
}

unfoldable pub attachment_parts : List Attachment → List Part
unfolding attachment_part
attachment_parts [] = []
attachment_parts (a ∷ rest) = attachment_part a ∷ attachment_parts rest
