-- ===== src/Multipart/Nested.antt =====
-- utils.go: a multipart body inside a part of another.
use gsmail.Prelude.{
  ◌≡◌, ◌≢◌, refl, ap, ◌∙◌, true, false, List, [], ◌∷◌, ◌++◌, append_assoc, All, All-append, All-map,
  arith,
}
use mathlib.Core.Path.{subst}
use gsmail.Prelude.Bytes.{Bytes}
use gsmail.Text.Search.{has_prefix}
use gsmail.Mime.{crlf}
use gsmail.Multipart.{
  Part, delimiter, write_fields, sorted_fields, write_part, write_rest, write_multipart,
}
use gsmail.Multipart.Reader.{separator, Clear, Clear-append}
use gsmail.Multipart.Split.{dashed, part_text, Readable}
use gsmail.Multipart.Clear.{
  no_dash, no_dash-dashed, IsPartField, Plain, clear-line_end, clear-crlf, clear-fields, plain-text,
  no_dash-part,
}
use gsmail.Multipart.Safety.{Differs}

module _ (b inner : Bytes) (line : All (λ c. c ≢ 13) inner) (differs : Differs inner b) where
  not_dashed : (y : Bytes) → has_prefix (dashed inner ++ y) (dashed b) ≡ false
  unfolding has_prefix
  not_dashed y = rw (differs y) refl

  clear-dashed : (y : Bytes) → no_dash y ≡ true → Clear (separator b) (dashed inner ++ crlf) y
  clear-dashed y k =
      clear-line_end b (dashed inner) y (ground arith, (ground arith, line)) (no_dash-dashed b y k)

  clear-delimiter : (y : Bytes) → no_dash y ≡ true → Clear (separator b) (delimiter false inner) y
  clear-delimiter y k =
      Clear-append (separator b) crlf (dashed inner ++ crlf) y
        (clear-crlf b _ (
          ap (λ z. has_prefix z (dashed b)) (append_assoc (dashed inner) crlf y)
          ∙ not_dashed (crlf ++ y)))
        (clear-dashed y k)

  clear-close : (y : Bytes) → no_dash y ≡ true → Clear (separator b) (write_rest inner []) y
  unfolding write_rest
  clear-close y k =
      Clear-append (separator b) crlf (dashed inner ++ (b'-' ∷ b'-' ∷ crlf)) y
        (clear-crlf b _ (
          ap (λ z. has_prefix z (dashed b)) (append_assoc (dashed inner) (b'-' ∷ b'-' ∷ crlf) y)
          ∙ not_dashed _))
        (subst (λ z. Clear (separator b) z y) (append_assoc (dashed inner) (b'-' ∷ b'-' ∷ []) crlf)
          (clear-line_end b (dashed inner ++ (b'-' ∷ b'-' ∷ [])) y
            (All-append (λ c. c ≢ 13) (dashed inner) _ (ground arith, (ground arith, line))
              (ground arith))
            (no_dash-dashed b y k)))

  clear-write_rest :
      (parts : List Part) (y : Bytes)
      → All Plain parts
      → no_dash y ≡ true
      → Clear (separator b) (write_rest inner parts) y
        × (no_dash (write_rest inner parts ++ y) ≡ true)
  unfolding write_rest write_part no_dash
  clear-write_rest [] y h k = (clear-close y k, refl)
  clear-write_rest (p ∷ parts) y h k =
      let ih = clear-write_rest parts y h.1 k in
      let text = plain-text b p (write_rest inner parts ++ y) h.0 ih.1 in
      (
        Clear-append (separator b) (write_part false inner p) (write_rest inner parts) y
            (Clear-append (separator b) (delimiter false inner) (part_text p)
              (write_rest inner parts ++ y)
              (clear-delimiter _ (no_dash-part p (write_rest inner parts ++ y) h.0)) text)
            ih.0,
        refl,
      )

  clear-write_multipart :
      (p : Part) (parts : List Part) (y : Bytes)
      → All Plain (p ∷ parts)
      → no_dash y ≡ true
      → Clear (separator b) (write_multipart inner p parts) y
  unfolding write_multipart write_part
  clear-write_multipart p parts y h k =
      let rest = clear-write_rest parts y h.1 k in
      Clear-append (separator b) (write_part true inner p) (write_rest inner parts) y
        (Clear-append (separator b) (dashed inner ++ crlf) (part_text p)
          (write_rest inner parts ++ y)
          (clear-dashed _ (no_dash-part p (write_rest inner parts ++ y) h.0))
          (plain-text b p (write_rest inner parts ++ y) h.0 rest.1))
        rest.0

  starts_dashed :
      (p : Part) (parts : List Part) (y : Bytes)
      → has_prefix (write_multipart inner p parts ++ y) (dashed b) ≡ false
  unfolding write_multipart write_part
  starts_dashed p parts y =
      ap (λ z. has_prefix z (dashed b))
        (append_assoc (delimiter true inner ++ part_text p) (write_rest inner parts) y
          ∙ append_assoc (delimiter true inner) (part_text p) (write_rest inner parts ++ y)
          ∙ append_assoc (dashed inner) crlf (part_text p ++ (write_rest inner parts ++ y)))
      ∙ not_dashed (crlf ++ (part_text p ++ (write_rest inner parts ++ y)))

  -- A part that holds a multipart body with another boundary.
  pub nested-Readable :
      (header : List (Bytes × Bytes)) (p : Part) (parts : List Part)
      → All IsPartField (sorted_fields header)
      → All Plain (p ∷ parts)
      → Readable b (record { header = header; content = write_multipart inner p parts })
  unfolding no_dash
  nested-Readable header p parts fields h = record {
    fields = All-map (λ f g. g.0) _ fields;
    clear = λ z.
        Clear-append (separator b) (write_fields (sorted_fields header))
          (crlf ++ write_multipart inner p parts) (separator b ++ z)
          (clear-fields b (sorted_fields header) _ fields refl).0
          (Clear-append (separator b) crlf (write_multipart inner p parts) (separator b ++ z)
            (clear-crlf b _ (starts_dashed p parts (separator b ++ z)))
            (clear-write_multipart p parts (separator b ++ z) h refl));
  }
