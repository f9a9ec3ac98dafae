-- ===== src/Parse.antt =====
-- utils.go: parsing a message. The readers of the standard library are the record MimeLibrary.
mod Tests
pub mod Bounds
pub mod Legal
pub mod Depth
use gsmail.Prelude.{
  ℕ, zero, suc, ◌+◌, ◌*◌, Bool, true, false, ◌&&◌, ◌||◌, not, Option, none, some, List, [], ◌∷◌,
  ◌++◌, length, take, ltb, leb, ◌==◌, if◌then◌else◌,
}
use gsmail.Prelude.Bytes.{Bytes, bytes_eq, codes}
use gsmail.Errors.{Error, sentinel, err_part_too_large, err_too_deeply_nested, text, errorf}
use gsmail.Text.Utf8.{runes}
use gsmail.Text.Search.{Unicode, to_lower, trim_space, has_prefix, split}
use gsmail.Email.{Attachment, Email, empty_email, assign}
use gsmail.Identity.{is_empty}
use gsmail.Address.{Address, AddressParser}
use gsmail.Header.{any, is_illegal_header_rune, sanitize_header_value}
use gsmail.Headers.{one_of, reserved_headers}

-- What an io.Reader gives: bytes, and then the end or an error.
pub record Stream : Type 0 where
  pub content : Bytes
  pub failure : Option Error

-- Get gives the first value of a field, or nothing; the fields are in the order of a loop.
pub record MailHeader : Type 0 where
  pub get : Bytes → Bytes
  pub entries : List (Bytes × List Bytes)

-- A message, or a part of one.
pub record Entity : Type 0 where
  pub header : MailHeader
  pub stream : Stream

-- mime.ParseMediaType: the type, a parameter or nothing, and whether there is an error.
pub record MediaType : Type 0 where
  pub media_type : Bytes
  pub param : Bytes → Bytes
  pub malformed : Bool

-- `parts` are those that NextPart gives, with its error if it does not end with io.EOF.
pub record MimeLibrary : Type 0 where
  pub unicode : Unicode
  pub addresses : AddressParser
  pub parse_address_list : Bytes → Option (List Address)
  pub read_message : Bytes → Option Entity
  pub decode_header : Bytes → Bytes
  pub parse_media_type : Bytes → MediaType
  pub parts : Stream → Bytes → List Entity × Option Error
  pub base64_reader : Stream → Stream
  pub quoted_reader : Stream → Stream
  pub trim_angles : Bytes → Bytes

abbrev pub max_part_size : ℕ
max_part_size = 26214400

abbrev pub max_multipart_depth : ℕ
max_multipart_depth = 10

abbrev pub max_parsed_headers : ℕ
max_parsed_headers = 256

abbrev pub max_header_value_len : ℕ
max_header_value_len = 16384

-- io.LimitReader
unfoldable pub limit : ℕ → Stream → Stream
limit n s =
    if leb n (length s.content) then record { content = take n s.content; failure = none } else s

-- The data and the error of a read.
pub data Read : Type 0 where
  data_read : Bytes → Read
  read_error : Error → Read

abbrev pub sized : Bytes → Option Error → Read
sized b (some e) = read_error e
sized b none =
    if ltb max_part_size (length b) then read_error (sentinel err_part_too_large) else data_read b

unfoldable pub read_limited : Stream → Read
unfolding limit
read_limited s = let l = limit (max_part_size + 1) s in sized l.content l.failure

abbrev pub data_of : Read → Bytes
data_of (data_read b) = b
data_of (read_error e) = []

unfoldable pub parse_fallback_body : Email → Stream → Email
unfolding read_limited
parse_fallback_body email r = record email { body = data_of (read_limited r) }

unfoldable pub usable_address : Bytes → Bytes
unfolding any is_illegal_header_rune
usable_address s =
    let t = trim_space s in if bytes_eq t [] || any is_illegal_header_rune (runes t) then [] else t

unfoldable pub usable : List Bytes → List Bytes
unfolding usable_address
usable [] = []
usable (s ∷ rest) =
    let others = usable rest in
    let entry = usable_address s in if bytes_eq entry [] then others else entry ∷ others

module _ (lib : MimeLibrary) where
  unfoldable pub formatted : List Address → List Bytes
  formatted [] = []
  formatted (a ∷ rest) =
      (if bytes_eq a.name [] then a.address else lib.addresses.format a) ∷ formatted rest

  abbrev pub split_or : Option (List Address) → Bytes → List Bytes
  split_or (some addresses) s = usable (formatted addresses)
  split_or none s = usable (split b',' s)

  unfoldable pub parse_address_list : Bytes → List Bytes
  unfolding usable formatted split
  parse_address_list s = split_or (lib.parse_address_list s) s

  -- `if to := msg.Header.Get("To"); to != ""`
  abbrev pub addresses_of : Bytes → List Bytes
  addresses_of [] = []
  addresses_of (c ∷ s) = parse_address_list (c ∷ s)

  abbrev pub keep_header : Bytes → Bytes → List (Bytes × Bytes) → List (Bytes × Bytes)
  keep_header name value out = if bytes_eq value [] then out else assign name value out

  abbrev pub keep_first : Bytes → List Bytes → List (Bytes × Bytes) → List (Bytes × Bytes)
  keep_first name [] out = out
  keep_first name (v ∷ values) out =
      if ltb max_header_value_len (length v)
      then out
      else keep_header name (sanitize_header_value v) out

  -- the loop of parsedHeaders, with the map so far
  unfoldable pub parsed_headers :
      List (Bytes × List Bytes) → List (Bytes × Bytes) → List (Bytes × Bytes)
  unfolding one_of
  parsed_headers [] out = out
  parsed_headers ((name, values) ∷ rest) out =
      let skipped = parsed_headers rest out in
      let kept = parsed_headers rest (keep_first name values out) in
      if leb max_parsed_headers (length out)
      then out
      else if one_of (to_lower lib.unicode name) reserved_headers
      then skipped
      else kept

  unfoldable pub decoder : Bytes → Stream → Stream
  decoder encoding r =
      let e = to_lower lib.unicode (trim_space encoding) in
      if bytes_eq e (codes "base64")
      then lib.base64_reader r
      else if bytes_eq e (codes "quoted-printable")
      then lib.quoted_reader r
      else r

  unfoldable pub decode_part : Stream → Bytes → Read
  unfolding limit decoder read_limited
  decode_part r encoding = read_limited (decoder encoding (limit (2 * max_part_size) r))

  abbrev pub attach : Email → Bytes → Bytes → Bytes → Bytes → Email
  attach email filename content_type content_id content = record email {
    attachments =
        email.attachments
        ++ record {
          filename = filename;
          content_type = content_type;
          content_id = content_id;
          content = content;
        }
          ∷ [];
  }

  -- processPart, where the part is not multipart and its data is read
  unfoldable pub store_part : Email → Entity → Bytes → Email
  store_part email part content =
      let content_type = part.header.get (codes "Content-Type") in
      let media = (lib.parse_media_type content_type).media_type in
      let disposition = lib.parse_media_type (part.header.get (codes "Content-Disposition")) in
      let content_id = lib.trim_angles (part.header.get (codes "Content-ID")) in
      let filename = disposition.param (codes "filename") in
      if bytes_eq disposition.media_type (codes "attachment")
        || bytes_eq disposition.media_type (codes "inline")
        || not (is_empty filename)
      then attach email (if is_empty filename then codes "attachment" else filename) content_type
          content_id content
      else if bytes_eq media (codes "text/plain")
      then record email { body = content }
      else if bytes_eq media (codes "text/html")
      then record email { html_body = content }
      else attach email filename content_type content_id content

  abbrev pub store_read : Email → Entity → Read → Email × Option Error
  store_read email part (read_error e) = (email, some e)
  store_read email part (data_read content) = (store_part email part content, none)

  -- `nested` is parseMultipart one level down
  unfoldable pub process_part :
      (Email → Stream → Bytes → Email × Option Error) → Email → Entity → Email × Option Error
  unfolding decode_part store_part
  process_part nested email part =
      let media = lib.parse_media_type (part.header.get (codes "Content-Type")) in
      if has_prefix media.media_type (codes "multipart/")
      then nested email part.stream (media.param (codes "boundary"))
      else store_read email part
          (decode_part part.stream (part.header.get (codes "Content-Transfer-Encoding")))

  -- the loop of parseMultipart over the parts; `end` is the error that ends it, if any
  unfoldable pub process_parts :
      (Email → Entity → Email × Option Error)
      → Email
      → List Entity
      → Option Error
      → Email × Option Error
  process_parts process email [] end = (email, end)
  process_parts process email (p ∷ ps) end =
      let r = process email p in
      elim r.1 [ some e ↦ (r.0, some e) | none ↦ process_parts process r.0 ps end ]

  -- The first argument is maxMultipartDepth less the depth.
  unfoldable pub parse_multipart : ℕ → Email → Stream → Bytes → Email × Option Error
  unfolding process_part process_parts
  parse_multipart zero email r boundary = (email, some (sentinel err_too_deeply_nested))
  parse_multipart (suc levels) email r boundary =
      if is_empty boundary
      then (email, some (text (codes "multipart content type without boundary")))
      else process_parts (process_part (parse_multipart levels)) email (lib.parts r boundary).0
          (lib.parts r boundary).1

  -- the fields of the header, in a message without a body
  unfoldable pub header_email : MailHeader → Email
  unfolding parse_address_list parsed_headers
  header_email h = record empty_email {
    from = sanitize_header_value (h.get (codes "From"));
    subject = sanitize_header_value (lib.decode_header (h.get (codes "Subject")));
    reply_to = sanitize_header_value (h.get (codes "Reply-To"));
    to = addresses_of (h.get (codes "To"));
    headers = parsed_headers h.entries [];
    cc = addresses_of (h.get (codes "Cc"));
  }

  abbrev pub or_plain : Bytes → Bytes
  or_plain [] = codes "text/plain"
  or_plain (c ∷ s) = c ∷ s

  abbrev pub with_body : Email → Read → Email × Option Error
  with_body email (data_read content) = (record email { body = content }, none)
  with_body email (read_error e) = (record email { body = [] }, some e)

  unfoldable pub parse_entity : Entity → Email × Option Error
  unfolding header_email parse_fallback_body parse_multipart decode_part
  parse_entity msg =
      let email = header_email msg.header in
      let media = lib.parse_media_type (or_plain (msg.header.get (codes "Content-Type"))) in
      if media.malformed
      then (parse_fallback_body email msg.stream, none)
      else if has_prefix media.media_type (codes "multipart/")
      then parse_multipart max_multipart_depth email msg.stream (media.param (codes "boundary"))
      else with_body email
          (decode_part msg.stream (msg.header.get (codes "Content-Transfer-Encoding")))

  abbrev pub parse_read : Option Entity → Email × Option Error
  parse_read none = (empty_email, some (errorf (text (codes "read message"))))
  parse_read (some msg) = parse_entity msg

  unfoldable pub parse_raw_email : Bytes → Email × Option Error
  unfolding parse_entity
  parse_raw_email raw = parse_read (lib.read_message raw)
