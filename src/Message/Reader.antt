-- ===== src/Message/Reader.antt =====
-- utils.go: a message as a receiver reads it, a field for each line up to the empty line.
use gsmail.Prelude.{
  ℕ, zero, suc, ◌≤◌, ◌≡◌, ◌≢◌, refl, sym, ap, ◌∙◌, false, Option, none, some, List, [], ◌∷◌, ◌++◌,
  append_assoc, length, length-append, drop, ◌==◌, All, All-append, All-map, arith, if◌then◌else◌,
}
use gsmail.Prelude.Bytes.{Bytes}
use gsmail.Text.Search.{cut}
use gsmail.Text.Parts.{cut-append}
use gsmail.Header.Sanitize.{IsLegal, IsNameByte}
use gsmail.Mime.{crlf}
use gsmail.Multipart.{field_line, write_fields}

abbrev pub longer : ℕ → Option (Bytes × Bytes) → Option (Bytes × Bytes)
longer c none = none
longer c (some (line, rest)) = some (c ∷ line, rest)

abbrev pub line_end : Bytes → Option (Bytes × Bytes)
line_end [] = none
line_end (c ∷ s) = if c == 10 then some ([], s) else none

-- a line, which ends in CR and LF, and what follows it
unfoldable pub read_line : Bytes → Option (Bytes × Bytes)
read_line [] = none
read_line (c ∷ s) = let rest = longer c (read_line s) in if c == 13 then line_end s else rest

abbrev pub add_field :
    Option (Bytes × Bytes)
    → Option (List (Bytes × Bytes) × Bytes)
    → Option (List (Bytes × Bytes) × Bytes)
add_field (some (key, value)) (some (fields, body)) = some ((key, drop 1 value) ∷ fields, body)
add_field _ _ = none

-- the header of a text of so many lines at most, and the body
unfoldable pub read_header : ℕ → Bytes → Option (List (Bytes × Bytes) × Bytes)
unfolding read_line cut
read_header zero s = none
read_header (suc n) s = elim (read_line s) [
  | none ↦ none
  | some p ↦ elim p.0 [
    | [] ↦ some ([], p.1)
    | ◌∷◌ c line ↦ add_field (cut b':' (c ∷ line)) (read_header n p.1)
  ]
]

unfoldable pub read_message : Bytes → Option (List (Bytes × Bytes) × Bytes)
unfolding read_header
read_message s = read_header (length s) s

-- A field that a reader finds again.
abbrev pub IsField : Bytes × Bytes → Type 0
IsField f = (f.0 ≢ []) × All IsNameByte f.0 × All IsLegal f.1

read_line_lem :
    (line rest : Bytes) → All IsLegal line → read_line (line ++ (crlf ++ rest)) ≡ some (line, rest)
unfolding read_line
read_line_lem [] rest h = refl
read_line_lem (c ∷ line) rest h =
    let no_cr : (c == 13) ≡ false = ground (arith, h.0) in
    rw no_cr (ap (longer c) (read_line_lem line rest h.1))

cut_lem :
    (name rest : Bytes) → All IsNameByte name → cut b':' (name ++ b':' ∷ rest) ≡ some (name, rest)
cut_lem name rest h = cut-append b':' name rest (All-map (λ c p. p.2) name h)

field_text : Bytes → Bytes → Bytes
field_text key value = key ++ b':' ∷ b' ' ∷ value

field_text-IsLegal :
    (key value : Bytes)
    → All IsNameByte key
    → All IsLegal value
    → All IsLegal (field_text key value)
unfolding field_text
field_text-IsLegal key value hk hv =
    All-append IsLegal key (b':' ∷ b' ' ∷ value) (All-map (λ c p. ground (arith, p)) key hk)
      (ground arith, (ground arith, hv))

field_line-text :
    (key value rest : Bytes) → field_line key value ++ rest ≡ field_text key value ++ (crlf ++ rest)
unfolding field_line field_text
field_line-text key value rest =
    append_assoc key _ rest
    ∙ ap (λ z. key ++ b':' ∷ b' ' ∷ z) (append_assoc value crlf rest)
    ∙ sym (append_assoc key (b':' ∷ b' ' ∷ value) (crlf ++ rest))

read_header-line :
    (n c : ℕ) (s line rest : Bytes)
    → read_line s ≡ some (c ∷ line, rest)
    → read_header (suc n) s ≡ add_field (cut b':' (c ∷ line)) (read_header n rest)
unfolding read_header
read_header-line n c s line rest e = rw (e, read_header) refl

read_field :
    (n : ℕ) (key value rest : Bytes)
    → IsField (key, value)
    → read_header (suc n) (field_line key value ++ rest)
      ≡ add_field (some (key, b' ' ∷ value)) (read_header n rest)
unfolding field_text
read_field n [] value rest h = absurd (h.0 refl)
read_field n (c ∷ key) value rest h =
    let text = field_text (c ∷ key) value in
    let legal = field_text-IsLegal (c ∷ key) value h.1 h.2 in
    ap (read_header (suc n)) (field_line-text (c ∷ key) value rest)
    ∙ read_header-line n c (text ++ (crlf ++ rest)) (key ++ b':' ∷ b' ' ∷ value) rest
        (read_line_lem text rest legal)
    ∙ ap (λ o. add_field o (read_header n rest)) (cut_lem (c ∷ key) (b' ' ∷ value) h.1)

length-field_line : (key value : Bytes) → 1 ≤ length (field_line key value)
unfolding field_line
length-field_line [] value = omega arith
length-field_line (c ∷ key) value = omega arith

read_blank : (n : ℕ) (body : Bytes) → read_header (suc n) (crlf ++ body) ≡ some ([], body)
unfolding read_header read_line
read_blank n body = refl

read_header-write_fields :
    (n : ℕ) (fields : List (Bytes × Bytes)) (body : Bytes)
    → All IsField fields
    → length (write_fields fields ++ (crlf ++ body)) ≤ n
    → read_header n (write_fields fields ++ (crlf ++ body)) ≡ some (fields, body)
unfolding write_fields
read_header-write_fields zero fields body h k =
    absurd (omega (arith, k, length-append (write_fields fields) (crlf ++ body)))
read_header-write_fields (suc n) [] body h k = read_blank n body
read_header-write_fields (suc n) ((key, value) ∷ fields) body h k =
    let rest = write_fields fields ++ (crlf ++ body) in
    let shape = append_assoc (field_line key value) (write_fields fields) (crlf ++ body) in
    let shorter : length rest ≤ n = omega (
      arith,
      k,
      ap length shape,
      length-append (field_line key value) rest,
      length-field_line key value,
    ) in
    ap (read_header (suc n)) shape
    ∙ read_field n key value rest h.0
    ∙ ap (add_field (some (key, b' ' ∷ value))) (read_header-write_fields n fields body h.1 shorter)

-- What is written for legal fields is read back, and the rest is the body.
pub read_message-write_fields :
    (fields : List (Bytes × Bytes)) (body : Bytes)
    → All IsField fields
    → read_message (write_fields fields ++ (crlf ++ body)) ≡ some (fields, body)
unfolding read_message
read_message-write_fields fields body h =
    read_header-write_fields (length (write_fields fields ++ (crlf ++ body))) fields body h
      (omega arith)
