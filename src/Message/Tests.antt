-- ===== src/Message/Tests.antt =====
-- utils.go: the theorems on rendered messages at concrete messages.
use mathlib.Core.Path.{subst}
use gsmail.Prelude.{
  ◌≡◌, refl, ◌↔◌, true, false, Option, none, some, List, [], ◌∷◌, ◌++◌, map, All, arith, ◌==◌, ltb,
  Bool-cases, inl, inr, if◌then◌else◌,
}
use mathlib.Core.List.{Permᴰ}
use gsmail.Prelude.Bytes.{Bytes, bytes_eq, bytes_eq_sound, codes}
use gsmail.Text.Utf8.{runes_after, encode_rune}
use gsmail.Text.Search.{Unicode, to_lower}
use gsmail.Email.{Email, empty_email}
use gsmail.Identity.{field}
use gsmail.Address.{AddressParser, Address}
use gsmail.Address.Legal.{LegalParser}
use gsmail.Header.{any, encode_header, sanitize_header_value, is_plain_ascii, is_valid_header_name}
use gsmail.Header.Sanitize.{IsLegal}
use gsmail.Headers.{is_reserved, one_of, sorted_header_names, sort_strings, insert_name, before}
use gsmail.Headers.Order.{SameMap}
use gsmail.Mime.{crlf}
use gsmail.Multipart.Reader.{read_multipart}
use gsmail.Multipart.Split.{read_of}
use gsmail.Message.{
  Env, legal_fields, caller_headers, written_before, has_prefix_header, write_header, first_part,
  later_parts, render_message, build_message,
}
use gsmail.Message.Fields.{LegalEnv}
use gsmail.Message.Injection.{
  caller_fields, sent_headers, content_body, read_built, render_message-reads,
}
use gsmail.Message.Once.{HasOnce, render_message-once}
use gsmail.Message.Parts.{TwoBoundaries, OfBytes, render_message-parts}
use gsmail.Message.Total.{IsBuilt, accepted, render_message_iff, build_message-SameMap}

abbrev ascii : Unicode
ascii = record { lower = λ r. r; upper = λ r. r; same_fold = λ r t. r == t }

abbrev bare : AddressParser
bare = record { parse = λ s. some (record { name = []; address = s }); format = λ a. a.address }

abbrev address_of : Option Address → Bytes
address_of none = []
address_of (some a) = a.address

bare-LegalParser : LegalParser bare
bare-LegalParser = record {
  parse_legal = λ s a h e. subst (λ o. All IsLegal (address_of o)) e h;
  format_legal = λ a h. h;
}

-- a stand-in for the Q-encoding
abbrev questioned : Bytes → Bytes
questioned [] = []
questioned (c ∷ s) = (if ltb 0x7e c then b'?' else c) ∷ questioned s

questioned-IsLegal : (s : Bytes) → All IsLegal s → All IsLegal (questioned s)
questioned-IsLegal [] h = tt
questioned-IsLegal (c ∷ s) h = (ground arith, questioned-IsLegal s h.1)

-- like mime.QEncoding, it leaves a text with a tab as it is
questioned_tab : questioned (codes "a\tb") ≡ codes "a\tb"
questioned_tab = refl

abbrev env : Env
env = record {
  unicode = ascii;
  q_encode = questioned;
  addresses = bare;
  date = codes "Mon, 02 Jan 2006 15:04:05 +0000";
  random = 7 ∷ 255 ∷ [];
  boundary = codes "outer";
  alt_boundary = codes "inner";
}

env-LegalEnv : LegalEnv env
env-LegalEnv = record {
  addresses_legal = bare-LegalParser;
  q_legal = questioned-IsLegal;
  date_printable = ground arith;
  random_bytes = ground arith;
  boundary_printable = ground arith;
}

env-TwoBoundaries : TwoBoundaries env
unfolding bytes_eq
env-TwoBoundaries = record { alt_printable = ground arith; same_length = refl; two = refl }

abbrev note : Email
note = record empty_email {
  from = codes "a@x.io";
  to = codes "b@x.io" ∷ [];
  subject = codes "Hi\r\nBcc: c@x.io";
  body = codes "Hello";
  headers = (codes "X-Tag", codes "1") ∷ (codes "bcc", codes "d@x.io") ∷ [];
}

abbrev letter : Email
letter = record note {
  html_body = codes "<p>Hello</p>";
  attachments =
      record {
        filename = codes "a\".txt";
        content_type = [];
        content_id = [];
        content = codes "text";
      }
      ∷ [];
}

note_tags : caller_fields env note ≡ legal_fields ((codes "X-Tag", codes "1") ∷ [])
unfolding caller_headers is_reserved one_of written_before has_prefix_header write_header to_lower
    runes_after encode_rune bytes_eq sorted_header_names sort_strings insert_name before
    encode_header sanitize_header_value any is_plain_ascii is_valid_header_name field
note_tags = refl

letter_tags : caller_fields env letter ≡ legal_fields ((codes "X-Tag", codes "1") ∷ [])
letter_tags = note_tags

render_message-reads_example :
    read_built (render_message env note)
    ≡ some (sent_headers env note ((codes "X-Tag", codes "1") ∷ []), content_body env note ++ crlf)
render_message-reads_example =
    render_message-reads env env-LegalEnv note ((codes "X-Tag", codes "1") ∷ []) note_tags

letter_read :
    read_built (render_message env letter)
    ≡ some
        (sent_headers env letter ((codes "X-Tag", codes "1") ∷ []), content_body env letter ++ crlf)
letter_read =
    render_message-reads env env-LegalEnv letter ((codes "X-Tag", codes "1") ∷ []) letter_tags

render_message-once_example : HasOnce env (sent_headers env note ((codes "X-Tag", codes "1") ∷ []))
render_message-once_example =
    render_message-once env env-LegalEnv note _ (content_body env note ++ crlf)
      render_message-reads_example

letter-OfBytes : OfBytes letter
letter-OfBytes = record {
  body_bytes = ground arith;
  html_bytes = ground arith;
  attachment_bytes = ((ground arith, ground arith), tt);
}

render_message-parts_example :
    read_multipart (codes "outer") (content_body env letter ++ crlf)
    ≡ some (map read_of (first_part env letter ∷ later_parts env letter))
render_message-parts_example =
    render_message-parts env env-TwoBoundaries env-LegalEnv letter _
      (content_body env letter ++ crlf) letter-OfBytes refl letter_read

render_message_iff_example :
    IsBuilt (render_message env note)
    ↔ All (λ name. accepted env name ≡ true) (sorted_header_names note.headers)
render_message_iff_example = render_message_iff env note

abbrev two_tags : List (Bytes × Bytes)
two_tags = (codes "X-A", codes "1") ∷ (codes "X-B", codes "2") ∷ []

abbrev two_tags_swapped : List (Bytes × Bytes)
two_tags_swapped = (codes "X-B", codes "2") ∷ (codes "X-A", codes "1") ∷ []

b_not_a : bytes_eq (codes "X-B") (codes "X-A") ≡ false
unfolding bytes_eq
b_not_a = refl

two_tags-SameMap : SameMap two_tags two_tags_swapped
unfolding field
two_tags-SameMap = record {
  names = ∣ Permᴰ.swap refl refl ∣₁;
  values = λ name. elim (Bool-cases (bytes_eq (codes "X-A") name)) [
    | inl a ↦
        let other : bytes_eq (codes "X-B") name ≡ false =
          subst (λ n. bytes_eq (codes "X-B") n ≡ false) (bytes_eq_sound (codes "X-A") name a)
            b_not_a in
        rw (a, other) refl
    | inr b ↦
        rw b (elim (Bool-cases (bytes_eq (codes "X-B") name)) [
          | inl c ↦ rw c refl
          | inr c ↦ rw c refl
        ])
  ];
}

build_message-SameMap_example :
    build_message env [] (record note { headers = two_tags })
    ≡ build_message env [] (record note { headers = two_tags_swapped })
build_message-SameMap_example =
    build_message-SameMap env [] note two_tags two_tags_swapped two_tags-SameMap
