-- ===== src/Message/Fields.antt =====
-- utils.go: the fields of the header of a message.
use gsmail.Prelude.{
  ◌≢◌, ◌<◌, ◌||◌, List, [], ◌∷◌, All, All-append, All-map, arith, Bool-cases, inl, inr,
}
use gsmail.Prelude.Bytes.{Bytes, bytes_eq, codes}
use gsmail.Email.{Email}
use gsmail.Address.{format_addresses}
use gsmail.Address.Legal.{LegalParser, format_address-IsLegal, format_addresses-IsLegal}
use gsmail.Header.{encode_header, is_valid_header_name}
use gsmail.Header.Sanitize.{
  IsLegal, IsPrintable, IsNameByte, encode_header-IsLegal, is_valid_header_name_iff,
}
use gsmail.Headers.{is_reserved}
use gsmail.MessageId.Safety.{generate_message_id-IsLegal}
use gsmail.Message.{
  Env, CallerFields, legal_fields, bad_name, also, has_prefix_header, write_header, write_addresses,
  write_reply_to, basic_headers, generated_headers, written_before, caller_headers,
}
use gsmail.Message.Reader.{IsField}

-- What the code relies on of the standard library: net/mail; mime.QEncoding, which returns a text as it
-- is or as encoded words of printable ASCII, and so brings no control character in; the format of the
-- time, the bytes that rand.Read fills in, and the boundaries of mime/multipart.
pub record LegalEnv (env : Env) : Type 0 where
  pub addresses_legal : LegalParser env.addresses
  pub q_legal : (s : Bytes) → All IsLegal s → All IsLegal (env.q_encode s)
  pub date_printable : All IsPrintable env.date
  pub random_bytes : All (λ c. c < 256) env.random
  pub boundary_printable : All IsPrintable env.boundary

pub IsPrintable-IsLegal : (s : Bytes) → All IsPrintable s → All IsLegal s
IsPrintable-IsLegal s h = All-map (λ c p. ground (arith, p)) s h

abbrev pub AllFields : (Bytes × Bytes → Type 0) → CallerFields → Type 0
AllFields P (legal_fields fields) = All P fields
AllFields P (bad_name e) = Unit

pub also-AllFields :
    (P : Bytes × Bytes → Type 0) (fields : List (Bytes × Bytes)) (rest : CallerFields)
    → All P fields
    → AllFields P rest
    → AllFields P (also fields rest)
also-AllFields P fields (legal_fields rest) h k = All-append P fields rest h k
also-AllFields P fields (bad_name e) h k = tt

module _ (env : Env) (prefix : Bytes) where
  pub write_header-All :
      (P : Bytes × Bytes → Type 0) (key value : Bytes)
      → P (key, value)
      → All P (write_header env prefix key value)
  unfolding write_header
  write_header-All P key value h =
      elim (Bool-cases (bytes_eq value [] || has_prefix_header env prefix key)) [
        | inl out ↦ rw out tt
        | inr kept ↦ rw kept (h, tt)
      ]

  -- a constant name with a legal value
  pub named :
      (key value : Bytes)
      → key ≢ []
      → All IsNameByte key
      → All IsLegal value
      → All IsField (write_header env prefix key value)
  named key value filled name legal = write_header-All IsField key value (filled, name, legal)

  module _ (legal : LegalEnv env) where
    encoded : (s : Bytes) → All IsLegal (encode_header env.q_encode s)
    encoded s = encode_header-IsLegal env.q_encode s legal.q_legal

    write_addresses-IsField :
        (key : Bytes) (as' : List Bytes)
        → key ≢ []
        → All IsNameByte key
        → All IsField (write_addresses env prefix key as')
    unfolding write_addresses
    write_addresses-IsField key [] filled name = tt
    write_addresses-IsField key (a ∷ rest) filled name =
        named key (format_addresses env.addresses (a ∷ rest)) filled name
          (format_addresses-IsLegal env.addresses legal.addresses_legal (a ∷ rest))

    write_reply_to-IsField : (s : Bytes) → All IsField (write_reply_to env prefix s)
    unfolding write_reply_to
    write_reply_to-IsField [] = tt
    write_reply_to-IsField (c ∷ s) =
        write_addresses-IsField (codes "Reply-To") ((c ∷ s) ∷ []) (λ e. cc) (ground arith)

    pub basic_headers-IsField : (email : Email) → All IsField (basic_headers env prefix email)
    unfolding basic_headers
    basic_headers-IsField email =
        let from = format_address-IsLegal env.addresses legal.addresses_legal email.from in
        All-append IsField _ _ (named (codes "From") _ (λ e. cc) (ground arith) from) (
          All-append IsField _ _
            (write_addresses-IsField (codes "To") email.to (λ e. cc) (ground arith))
            (All-append IsField _ _
              (write_addresses-IsField (codes "Cc") email.cc (λ e. cc) (ground arith))
              (All-append IsField _ _ (write_reply_to-IsField email.reply_to) (
                All-append IsField _ _
                  (named (codes "Subject") _ (λ e. cc) (ground arith) (encoded email.subject))
                  (named (codes "MIME-Version") (codes "1.0") (λ e. cc) (ground arith)
                    (ground arith))))))

    pub generated_headers-IsField :
        (email : Email) → All IsField (generated_headers env prefix email)
    unfolding generated_headers
    generated_headers-IsField email =
        All-append IsField _ _
          (named (codes "Date") env.date (λ e. cc) (ground arith)
            (IsPrintable-IsLegal env.date legal.date_printable))
          (named (codes "Message-ID") _ (λ e. cc) (ground arith)
            (generate_message_id-IsLegal env.random email.from legal.random_bytes))

    pub caller_headers-IsField :
        (look : Bytes → Bytes) (names : List Bytes)
        → AllFields IsField (caller_headers env prefix look names)
    unfolding caller_headers
    caller_headers-IsField look [] = tt
    caller_headers-IsField look (name ∷ names) =
        let ih = caller_headers-IsField look names in
        elim (Bool-cases (is_reserved env.unicode name)) [
          | inl reserved ↦ rw reserved ih
          | inr free ↦ elim (Bool-cases (written_before env prefix name)) [
            | inl twice ↦ rw (free, twice) ih
            | inr once ↦ elim (Bool-cases (is_valid_header_name name)) [
              | inl valid ↦
                  let bytes = (is_valid_header_name_iff name).0 valid in
                  rw (free, once, valid)
                    (also-AllFields IsField _ _ (named name _ bytes.0 bytes.1 (encoded (look name)))
                      ih)
              | inr bad ↦ rw (free, once, bad) tt
            ]
          ]
        ]
