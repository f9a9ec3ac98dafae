-- ===== src/Message/Names.antt =====
-- utils.go: how often a field is in the header of a message.
use gsmail.Prelude.{
  ℕ, ◌+◌, ◌≤◌, ◌≡◌, refl, false, List, [], ◌∷◌, ◌++◌, All, All-map, arith, Bool-cases, inl, inr,
  if◌then◌else◌,
}
use gsmail.Prelude.Bytes.{Bytes, bytes_eq, codes}
use gsmail.Text.Search.{Unicode, to_lower}
use gsmail.Email.{Email}
use gsmail.Header.{encode_header, is_valid_header_name}
use gsmail.Headers.{one_of, reserved_headers, trace_headers, is_reserved}
use gsmail.Message.{
  Env, has_prefix_header, write_header, write_addresses, write_reply_to, basic_headers,
  generated_headers, written_before, caller_headers, simple_headers, is_simple,
}
use gsmail.Message.Fields.{write_header-All, also-AllFields, AllFields}
use gsmail.Message.Injection.{content_headers, sent_headers}

bytes_eq_sym : (s t : Bytes) → bytes_eq s t ≡ bytes_eq t s
unfolding bytes_eq
bytes_eq_sym [] [] = refl
bytes_eq_sym [] (b ∷ t) = refl
bytes_eq_sym (a ∷ s) [] = refl
bytes_eq_sym (a ∷ s) (b ∷ t) = ground (arith, bytes_eq_sym s t)

one_of-All :
    (name : Bytes) (names : List Bytes)
    → one_of name names ≡ false
    → All (λ n. bytes_eq name n ≡ false) names
unfolding one_of
one_of-All name [] h = tt
one_of-All name (n ∷ names) h = ground (arith, one_of-All name names, bytes_eq_sym n name)

-- how many fields have a name, which is in lower case, by any spelling of it
unfoldable pub count_named : Unicode → Bytes → List (Bytes × Bytes) → ℕ
count_named u n [] = 0
count_named u n (f ∷ fields) =
    (if bytes_eq (to_lower u f.0) n then 1 else 0) + count_named u n fields

count_named-append :
    (u : Unicode) (n : Bytes) (fs gs : List (Bytes × Bytes))
    → count_named u n (fs ++ gs) ≡ count_named u n fs + count_named u n gs
unfolding count_named
count_named-append u n [] gs = omega arith
count_named-append u n (f ∷ fs) gs = omega (arith, count_named-append u n fs gs)

count_none :
    (u : Unicode) (n : Bytes) (fs : List (Bytes × Bytes))
    → All (λ f. bytes_eq (to_lower u f.0) n ≡ false) fs
    → count_named u n fs ≡ 0
unfolding count_named
count_none u n [] h = refl
count_none u n (f ∷ fs) h = rw h.0 (omega (arith, count_none u n fs h.1))

-- the fields that RFC 5322 and RFC 2045 allow once
abbrev pub single_names : List Bytes
single_names =
    codes "from"
    ∷ codes "to"
    ∷ codes "cc"
    ∷ codes "reply-to"
    ∷ codes "subject"
    ∷ codes "mime-version"
    ∷ codes "date"
    ∷ codes "message-id"
    ∷ codes "content-type"
    ∷ codes "content-transfer-encoding"
    ∷ []

module _ (env : Env) where
  abbrev pub hit : Bytes → Bytes → ℕ
  hit n key = if bytes_eq (to_lower env.unicode key) n then 1 else 0

  unfoldable pub count : Bytes → List (Bytes × Bytes) → ℕ
  unfolding count_named
  count n fs = count_named env.unicode n fs

  count_header : (n key value : Bytes) → count n (write_header env [] key value) ≤ hit n key
  unfolding count count_named write_header has_prefix_header
  count_header n key value = elim (Bool-cases (bytes_eq value [])) [
    | inl empty ↦ rw empty (omega arith)
    | inr filled ↦ rw filled (omega arith)
  ]

  count_addresses :
      (n key : Bytes) (as' : List Bytes) → count n (write_addresses env [] key as') ≤ hit n key
  unfolding count count_named write_addresses
  count_addresses n key [] = omega arith
  count_addresses n key (a ∷ rest) = count_header n key _

  count_reply_to : (n s : Bytes) → count n (write_reply_to env [] s) ≤ hit n (codes "Reply-To")
  unfolding count count_named write_reply_to
  count_reply_to n [] = omega arith
  count_reply_to n (c ∷ s) = count_addresses n (codes "Reply-To") ((c ∷ s) ∷ [])

  -- Neither reserved, nor the date or the Message-ID that the library writes.
  abbrev pub IsFree : Bytes × Bytes → Type 0
  IsFree f =
      (one_of (to_lower env.unicode f.0) reserved_headers ≡ false)
      × (bytes_eq (to_lower env.unicode f.0) (codes "date") ≡ false)
      × (bytes_eq (to_lower env.unicode f.0) (codes "message-id") ≡ false)

  pub caller_headers-IsFree :
      (look : Bytes → Bytes) (names : List Bytes)
      → AllFields IsFree (caller_headers env [] look names)
  unfolding caller_headers is_reserved written_before has_prefix_header
  caller_headers-IsFree look [] = tt
  caller_headers-IsFree look (name ∷ names) =
      let ih = caller_headers-IsFree look names in
      elim (Bool-cases (one_of (to_lower env.unicode name) reserved_headers)) [
        | inl reserved ↦ rw reserved ih
        | inr open_name ↦ elim (Bool-cases (one_of (to_lower env.unicode name) trace_headers)) [
          | inl trace ↦ rw (open_name, trace) ih
          | inr plain ↦ elim (Bool-cases (bytes_eq (to_lower env.unicode name) (codes "date"))) [
            | inl date ↦ rw (open_name, plain, date) ih
            | inr no_date ↦
                elim (Bool-cases (bytes_eq (to_lower env.unicode name) (codes "message-id"))) [
                  | inl id ↦ rw (open_name, plain, no_date, id) ih
                  | inr no_id ↦ elim (Bool-cases (is_valid_header_name name)) [
                    | inl valid ↦
                        rw (open_name, plain, no_date, no_id, valid)
                          (also-AllFields IsFree _ _
                            (write_header-All env [] IsFree name _ (open_name, no_date, no_id)) ih)
                    | inr bad ↦ rw (open_name, plain, no_date, no_id, bad) tt
                  ]
                ]
          ]
        ]
      ]

  abbrev pub Avoids : Bytes → Type 0
  Avoids n = (f : Bytes × Bytes) → IsFree f → bytes_eq (to_lower env.unicode f.0) n ≡ false

  count_caller :
      (n : Bytes) (caller : List (Bytes × Bytes))
      → Avoids n
      → All IsFree caller
      → count n caller ≡ 0
  unfolding count
  count_caller n caller avoid h = count_none env.unicode n caller (All-map avoid caller h)

  count-append :
      (n : Bytes) (fs gs : List (Bytes × Bytes)) → count n (fs ++ gs) ≡ count n fs + count n gs
  unfolding count
  count-append n fs gs = count_named-append env.unicode n fs gs

  -- how many of the names that the library writes are a name
  unfoldable pub written_names : Bytes → ℕ
  written_names n =
      (hit n (codes "From")
        + (hit n (codes "To")
            + (hit n (codes "Cc")
                + (hit n (codes "Reply-To")
                    + (hit n (codes "Subject") + hit n (codes "MIME-Version"))))))
      + (hit n (codes "Date") + hit n (codes "Message-ID"))
      + (hit n (codes "Content-Type") + hit n (codes "Content-Transfer-Encoding"))

  basic_count :
      (n : Bytes) (email : Email)
      → count n (basic_headers env [] email)
        ≤ hit n (codes "From")
          + (hit n (codes "To")
              + (hit n (codes "Cc")
                  + (hit n (codes "Reply-To")
                      + (hit n (codes "Subject") + hit n (codes "MIME-Version")))))
  unfolding basic_headers
  basic_count n email = omega (
    arith,
    count-append n (write_header env [] (codes "From") _) _,
    count_header n (codes "From") _,
    count-append n (write_addresses env [] (codes "To") email.to) _,
    count_addresses n (codes "To") email.to,
    count-append n (write_addresses env [] (codes "Cc") email.cc) _,
    count_addresses n (codes "Cc") email.cc,
    count-append n (write_reply_to env [] email.reply_to) _,
    count_reply_to n email.reply_to,
    count-append n (write_header env [] (codes "Subject") _) _,
    count_header n (codes "Subject") (encode_header env.q_encode email.subject),
    count_header n (codes "MIME-Version") (codes "1.0"),
  )

  content_count :
      (n : Bytes) (email : Email)
      → count n (content_headers env email)
        ≤ hit n (codes "Content-Type") + hit n (codes "Content-Transfer-Encoding")
  unfolding simple_headers
  content_count n email = elim (Bool-cases (is_simple env [] email)) [
    | inl simple ↦ rw simple (
        omega (
          arith,
          count-append n (write_header env [] (codes "Content-Type") _) _,
          count_header n (codes "Content-Type") _,
          count_header n (codes "Content-Transfer-Encoding") (codes "base64"),
        ))
    | inr parts ↦ rw parts (omega (arith, count_header n (codes "Content-Type") _))
  ]

  pub sent_count :
      (n : Bytes) (email : Email) (caller : List (Bytes × Bytes))
      → Avoids n
      → All IsFree caller
      → count n (sent_headers env email caller) ≤ written_names n
  unfolding written_names generated_headers
  sent_count n email caller avoid h = omega (
    arith,
    count-append n (basic_headers env [] email ++ (generated_headers env [] email ++ caller)) _,
    count-append n (basic_headers env [] email) (generated_headers env [] email ++ caller),
    count-append n (generated_headers env [] email) caller,
    count-append n (write_header env [] (codes "Date") env.date) _,
    basic_count n email,
    count_header n (codes "Date") env.date,
    count_header n (codes "Message-ID") _,
    count_caller n caller avoid h,
    content_count n email,
  )

  pub reserved_avoids :
      (f : Bytes × Bytes)
      → IsFree f
      → All (λ n. bytes_eq (to_lower env.unicode f.0) n ≡ false) reserved_headers
  reserved_avoids f h = one_of-All (to_lower env.unicode f.0) reserved_headers h.0
