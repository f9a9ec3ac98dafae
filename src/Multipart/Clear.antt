-- ===== src/Multipart/Clear.antt =====
-- utils.go: the lines of a part, none of which begins as a boundary.
use gsmail.Prelude.{
  ℕ, suc, ◌≡◌, ◌≢◌, ◌<◌, refl, sym, ap, ◌∙◌, Bool, true, false, not, List, [], ◌∷◌, ◌++◌,
  append_assoc, ◌==◌, All, All-append, All-map, arith, Bool-cases, inl, inr,
}
use mathlib.Core.Path.{subst}
use gsmail.Prelude.Bytes.{Bytes, codes}
use gsmail.Text.Search.{has_prefix}
use gsmail.Header.Sanitize.{IsLegal, IsNameByte}
use gsmail.Mime.{crlf, base64, write_mime_base64}
use gsmail.Mime.Base64.{IsAlphabet, base64-IsAlphabet}
use gsmail.Mime.Lines.{fold, write_mime_base64-fold}
use gsmail.Message.Reader.{IsField}
use gsmail.Multipart.{Part, field_line, write_fields, sorted_fields}
use gsmail.Multipart.Reader.{separator, Clear, Clear-append}
use gsmail.Multipart.Split.{dashed, part_text}

unfoldable pub no_dash : Bytes → Bool
no_dash [] = true
no_dash (c ∷ s) = not (c == b'-')

pub no_dash-dashed : (b y : Bytes) → no_dash y ≡ true → has_prefix y (dashed b) ≡ false
unfolding no_dash has_prefix
no_dash-dashed b [] h = refl
no_dash-dashed b (c ∷ y) h = ground (arith, h)

-- A field whose line does not begin with a dash.
abbrev pub IsPartField : Bytes × Bytes → Type 0
IsPartField f = IsField f × (no_dash f.0 ≡ true)

pub clear-line : (b x y : Bytes) → All (λ c. c ≢ 13) x → Clear (separator b) x y
unfolding has_prefix
clear-line b [] y h = tt
clear-line b (c ∷ x) y h = (ground (arith, h.0), clear-line b x y h.1)

pub clear-crlf : (b y : Bytes) → has_prefix y (dashed b) ≡ false → Clear (separator b) crlf y
unfolding has_prefix
clear-crlf b y h = (rw h refl, (refl, tt))

pub clear-line_end :
    (b x y : Bytes)
    → All (λ c. c ≢ 13) x
    → has_prefix y (dashed b) ≡ false
    → Clear (separator b) (x ++ crlf) y
clear-line_end b x y h k =
    Clear-append (separator b) x crlf y (clear-line b x (crlf ++ y) h) (clear-crlf b y k)

legal-line : (s : Bytes) → All IsLegal s → All (λ c. c ≢ 13) s
legal-line s h = All-map (λ c p. ground (arith, p)) s h

name-line : (s : Bytes) → All IsNameByte s → All (λ c. c ≢ 13) s
name-line s h = All-map (λ c p. ground (arith, p)) s h

clear-field :
    (b : Bytes) (f : Bytes × Bytes) (y : Bytes)
    → IsPartField f
    → no_dash y ≡ true
    → Clear (separator b) (field_line f.0 f.1) y
unfolding field_line
clear-field b f y h k =
    subst (λ z. Clear (separator b) z y) (append_assoc f.0 (codes ": " ++ f.1) crlf)
      (clear-line_end b (f.0 ++ (codes ": " ++ f.1)) y
        (All-append (λ c. c ≢ 13) f.0 _ (name-line f.0 h.0.1)
          (ground arith, (ground arith, legal-line f.1 h.0.2)))
        (no_dash-dashed b y k))

no_dash-append : (x y : Bytes) → no_dash x ≡ true → no_dash y ≡ true → no_dash (x ++ y) ≡ true
unfolding no_dash
no_dash-append [] y h k = k
no_dash-append (c ∷ x) y h k = h

no_dash-field :
    (f : Bytes × Bytes) (y : Bytes) → IsPartField f → no_dash (field_line f.0 f.1 ++ y) ≡ true
unfolding field_line no_dash
no_dash-field ([], value) y h = absurd (h.0.0 refl)
no_dash-field (c ∷ key, value) y h = h.1

pub clear-fields :
    (b : Bytes) (fields : List (Bytes × Bytes)) (y : Bytes)
    → All IsPartField fields
    → no_dash y ≡ true
    → Clear (separator b) (write_fields fields) y × (no_dash (write_fields fields ++ y) ≡ true)
unfolding write_fields
clear-fields b [] y h k = (tt, k)
clear-fields b (f ∷ fields) y h k =
    let ih = clear-fields b fields y h.1 k in
    (
      Clear-append (separator b) (field_line f.0 f.1) (write_fields fields) y
          (clear-field b f (write_fields fields ++ y) h.0 ih.1) ih.0,
      ap no_dash (append_assoc (field_line f.0 f.1) (write_fields fields) y)
          ∙ no_dash-field f (write_fields fields ++ y) h.0,
    )

clear-fold :
    (b : Bytes) (col : ℕ) (p y : Bytes)
    → All IsAlphabet p
    → no_dash y ≡ true
    → Clear (separator b) (fold col p) y × (no_dash (fold col p ++ y) ≡ true)
unfolding fold no_dash
clear-fold b col [] y h k = (tt, k)
clear-fold b col (c ∷ p) y h k =
    let letter : (c == b'-') ≡ false = ground (arith, h.0) in
    let printed : c ≢ 13 = ground (arith, h.0) in
    elim (Bool-cases (col == 76)) [
      | inl full ↦ rw full (
        Clear-append (separator b) crlf (c ∷ fold 1 p) y
            (clear-crlf b (c ∷ (fold 1 p ++ y))
              (no_dash-dashed b (c ∷ (fold 1 p ++ y)) (rw letter refl)))
            (Clear-append (separator b) (c ∷ []) (fold 1 p) y
              (clear-line b (c ∷ []) (fold 1 p ++ y) (printed, tt)) (clear-fold b 1 p y h.1 k).0),
        refl,
      )
      | inr room ↦ rw room (
        Clear-append (separator b) (c ∷ []) (fold (suc col) p) y
            (clear-line b (c ∷ []) (fold (suc col) p ++ y) (printed, tt))
            (clear-fold b (suc col) p y h.1 k).0,
        rw letter refl,
      )
    ]

-- A part whose lines do not begin with a dash.
pub record Plain (p : Part) : Type 0 where
  pub fields : All IsPartField (sorted_fields p.header)
  pub content :
      (b y : Bytes)
      → no_dash y ≡ true
      → Clear (separator b) p.content y × (no_dash (p.content ++ y) ≡ true)

pub Plain-base64 :
    (h : List (Bytes × Bytes)) (s : Bytes)
    → All IsPartField (sorted_fields h)
    → All (λ c. c < 256) s
    → Plain (record { header = h; content = write_mime_base64 s })
Plain-base64 h s fields bytes = record {
  fields = fields;
  content = λ b y k.
      subst (λ z. Clear (separator b) z y × (no_dash (z ++ y) ≡ true))
        (sym (write_mime_base64-fold s))
        (clear-fold b 0 (base64 s) y (base64-IsAlphabet s bytes) k);
}

pub plain-text :
    (b : Bytes) (p : Part) (y : Bytes)
    → Plain p
    → no_dash y ≡ true
    → Clear (separator b) (part_text p) y
unfolding no_dash
plain-text b p y h k =
    let c = h.content b y k in
    Clear-append (separator b) (write_fields (sorted_fields p.header)) (crlf ++ p.content) y
      (clear-fields b (sorted_fields p.header) (crlf ++ (p.content ++ y)) h.fields refl).0
      (Clear-append (separator b) crlf p.content y
        (clear-crlf b (p.content ++ y) (no_dash-dashed b (p.content ++ y) c.1)) c.0)

pub no_dash-part : (p : Part) (y : Bytes) → Plain p → no_dash (part_text p ++ y) ≡ true
unfolding no_dash
no_dash-part p y h =
    ap no_dash (append_assoc (write_fields (sorted_fields p.header)) (crlf ++ p.content) y)
    ∙ (clear-fields [] (sorted_fields p.header) (crlf ++ (p.content ++ y)) h.fields refl).1
