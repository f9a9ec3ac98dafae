-- ===== src/Parse/Legal.antt =====
-- utils.go: the header values that parsing keeps.
use gsmail.Prelude.{
  suc, ◌≤◌, ◌≡◌, Bool, true, false, ◌||◌, not, Option, none, some, List, [], ◌∷◌, length, ltb, leb,
  All, arith, Bool-cases, inl, inr,
}
use gsmail.Prelude.Bytes.{Bytes, bytes_eq, codes}
use gsmail.Text.Utf8.{runes}
use gsmail.Text.Search.{to_lower, trim_space, split}
use gsmail.Email.{Email, Attachment, assign}
use gsmail.Identity.{is_empty}
use gsmail.Address.{Address}
use gsmail.Header.{any, is_illegal_header_rune, sanitize_header_value}
use gsmail.Header.Sanitize.{IsLegal, any-IsLegal, sanitize_header_value-IsLegal}
use gsmail.Headers.{one_of, reserved_headers}
use gsmail.Parse.{
  Entity, MimeLibrary, max_parsed_headers, max_header_value_len, usable_address, usable, formatted,
  split_or, parse_address_list, addresses_of, keep_header, keep_first, parsed_headers, store_part,
  header_email, parse_read, parse_raw_email,
}
use gsmail.Parse.Bounds.{parse_entity-Filled}

not_or : (a b : Bool) → (a || b) ≡ false → b ≡ false
not_or true b h = cc
not_or false b h = h

usable_address-IsLegal : (s : Bytes) → All IsLegal (usable_address s)
unfolding usable_address
usable_address-IsLegal s =
    let t = trim_space s in
    elim (Bool-cases (bytes_eq t [] || any is_illegal_header_rune (runes t))) [
      | inl dropped ↦ rw dropped tt
      | inr kept ↦ rw kept (any-IsLegal t (not_or (bytes_eq t []) _ kept))
    ]

usable-IsLegal : (ss : List Bytes) → All (All IsLegal) (usable ss)
unfolding usable
usable-IsLegal [] = tt
usable-IsLegal (s ∷ rest) = elim (Bool-cases (bytes_eq (usable_address s) [])) [
  | inl dropped ↦ rw dropped (usable-IsLegal rest)
  | inr kept ↦ rw kept (usable_address-IsLegal s, usable-IsLegal rest)
]

-- A field whose value is legal.
abbrev pub IsKept : Bytes × Bytes → Type 0
IsKept f = All IsLegal f.1

assign-IsKept :
    (name value : Bytes) (out : List (Bytes × Bytes))
    → All IsLegal value
    → All IsKept out
    → All IsKept (assign name value out)
unfolding assign
assign-IsKept name value [] h k = (h, tt)
assign-IsKept name value ((n, v) ∷ out) h k = elim (Bool-cases (bytes_eq n name)) [
  | inl same ↦ rw same (h, k.1)
  | inr other ↦ rw other (k.0, assign-IsKept name value out h k.1)
]

length-assign :
    (name value : Bytes) (out : List (Bytes × Bytes))
    → length (assign name value out) ≤ suc (length out)
unfolding assign
length-assign name value [] = omega arith
length-assign name value ((n, v) ∷ out) = elim (Bool-cases (bytes_eq n name)) [
  | inl same ↦ rw same (omega arith)
  | inr other ↦ rw other (omega (arith, length-assign name value out))
]

-- The fields that are kept are legal, and not too many.
abbrev pub AreKept : List (Bytes × Bytes) → Type 0
AreKept out = All IsKept out × (length out ≤ max_parsed_headers)

-- A message whose header values have no control character but the tab, and at most 256 other fields.
pub record IsLegalEmail (email : Email) : Type 0 where
  pub from_legal : All IsLegal email.from
  pub subject_legal : All IsLegal email.subject
  pub reply_to_legal : All IsLegal email.reply_to
  pub to_legal : All (All IsLegal) email.to
  pub cc_legal : All (All IsLegal) email.cc
  pub headers_kept : AreKept email.headers

module _ (lib : MimeLibrary) where
  keep_header-AreKept :
      (name value : Bytes) (out : List (Bytes × Bytes))
      → All IsLegal value
      → AreKept out
      → leb max_parsed_headers (length out) ≡ false
      → AreKept (keep_header lib name value out)
  keep_header-AreKept name value out h k room = elim (Bool-cases (bytes_eq value [])) [
    | inl empty ↦ rw empty k
    | inr filled ↦
        rw filled
          (assign-IsKept name value out h k.0, ground (arith, length-assign name value out, room))
  ]

  keep_first-AreKept :
      (name : Bytes) (values : List Bytes) (out : List (Bytes × Bytes))
      → AreKept out
      → leb max_parsed_headers (length out) ≡ false
      → AreKept (keep_first lib name values out)
  keep_first-AreKept name [] out k room = k
  keep_first-AreKept name (v ∷ values) out k room =
      elim (Bool-cases (ltb max_header_value_len (length v))) [
        | inl long ↦ rw long k
        | inr short ↦ rw short (
            keep_header-AreKept name (sanitize_header_value v) out (sanitize_header_value-IsLegal v)
              k room)
      ]

  parsed_headers-AreKept :
      (entries : List (Bytes × List Bytes)) (out : List (Bytes × Bytes))
      → AreKept out
      → AreKept (parsed_headers lib entries out)
  unfolding parsed_headers
  parsed_headers-AreKept [] out k = k
  parsed_headers-AreKept ((name, values) ∷ rest) out k =
      elim (Bool-cases (leb max_parsed_headers (length out))) [
        | inl full ↦ rw full k
        | inr room ↦ elim (Bool-cases (one_of (to_lower lib.unicode name) reserved_headers)) [
          | inl typed ↦ rw (room, typed) (parsed_headers-AreKept rest out k)
          | inr other ↦
              rw (room, other)
                (parsed_headers-AreKept rest (keep_first lib name values out)
                  (keep_first-AreKept name values out k room))
        ]
      ]

  split_or-IsLegal : (o : Option (List Address)) (s : Bytes) → All (All IsLegal) (split_or lib o s)
  split_or-IsLegal (some addresses) s = usable-IsLegal (formatted lib addresses)
  split_or-IsLegal none s = usable-IsLegal (split b',' s)

  addresses_of-IsLegal : (s : Bytes) → All (All IsLegal) (addresses_of lib s)
  unfolding parse_address_list
  addresses_of-IsLegal [] = tt
  addresses_of-IsLegal (c ∷ s) = split_or-IsLegal (lib.parse_address_list (c ∷ s)) (c ∷ s)

  header_email-IsLegalEmail : (h : Entity) → IsLegalEmail (header_email lib h.header)
  unfolding header_email
  header_email-IsLegalEmail msg = record {
    from_legal = sanitize_header_value-IsLegal (msg.header.get (codes "From"));
    subject_legal =
        sanitize_header_value-IsLegal (lib.decode_header (msg.header.get (codes "Subject")));
    reply_to_legal = sanitize_header_value-IsLegal (msg.header.get (codes "Reply-To"));
    to_legal = addresses_of-IsLegal (msg.header.get (codes "To"));
    cc_legal = addresses_of-IsLegal (msg.header.get (codes "Cc"));
    headers_kept = parsed_headers-AreKept msg.header.entries [] (tt, omega arith);
  }

  -- parts and bodies do not touch the header
  other_content :
      (email : Email) (b h : Bytes) (as' : List Attachment)
      → IsLegalEmail email
      → IsLegalEmail (record email { body = b; html_body = h; attachments = as' })
  other_content email b h as' k = record {
    from_legal = k.from_legal;
    subject_legal = k.subject_legal;
    reply_to_legal = k.reply_to_legal;
    to_legal = k.to_legal;
    cc_legal = k.cc_legal;
    headers_kept = k.headers_kept;
  }

  store_part-IsLegalEmail :
      (email : Email) (p : Entity) (b : Bytes)
      → IsLegalEmail email
      → IsLegalEmail (store_part lib email p b)
  unfolding store_part
  store_part-IsLegalEmail email p b h =
      let media = (lib.parse_media_type (p.header.get (codes "Content-Type"))).media_type in
      let disposition = lib.parse_media_type (p.header.get (codes "Content-Disposition")) in
      elim (Bool-cases (
        bytes_eq disposition.media_type (codes "attachment")
        || bytes_eq disposition.media_type (codes "inline")
        || not (is_empty (disposition.param (codes "filename"))))) [
          | inl attached ↦ rw attached (other_content email email.body email.html_body _ h)
          | inr other ↦ elim (Bool-cases (bytes_eq media (codes "text/plain"))) [
            | inl plain ↦
                rw (other, plain) (other_content email b email.html_body email.attachments h)
            | inr rich ↦ elim (Bool-cases (bytes_eq media (codes "text/html"))) [
              | inl html ↦
                  rw (other, rich, html) (other_content email email.body b email.attachments h)
              | inr unknown ↦
                  rw (other, rich, unknown) (other_content email email.body email.html_body _ h)
            ]
          ]
        ]

  parse_read-IsLegalEmail : (o : Option Entity) → IsLegalEmail (parse_read lib o).0
  parse_read-IsLegalEmail none = record {
    from_legal = tt;
    subject_legal = tt;
    reply_to_legal = tt;
    to_legal = tt;
    cc_legal = tt;
    headers_kept = (tt, omega arith);
  }
  parse_read-IsLegalEmail (some msg) =
      parse_entity-Filled lib IsLegalEmail (λ email p b h k. store_part-IsLegalEmail email p b h)
        (λ email b h k. other_content email b email.html_body email.attachments h) msg
        (header_email-IsLegalEmail msg)

  -- Whatever the message and the standard library's readers, also where parsing fails: the From,
  -- the Subject, the Reply-To, each To and Cc address and each other header value that
  -- ParseRawEmail keeps has no control character but the tab, and there are at most 256 other
  -- fields.
  pub parse_raw_email-IsLegalEmail : (raw : Bytes) → IsLegalEmail (parse_raw_email lib raw).0
  unfolding parse_raw_email
  parse_raw_email-IsLegalEmail raw = parse_read-IsLegalEmail (lib.read_message raw)
