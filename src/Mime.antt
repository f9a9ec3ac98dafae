-- ===== src/Mime.antt =====
-- utils.go: base64 for MIME parts, and the writer that folds it into lines.
mod Tests
pub mod Base64
pub mod Lines
use gsmail.Prelude.{
  ℕ, zero, suc, ◌+◌, ◌-◌, ◌*◌, ◌/◌, ◌%◌, Bool, true, false, Option, none, some, List, [], ◌∷◌, ◌++◌,
  length, take, drop, ltb, leb, ◌==◌, if◌then◌else◌,
}
use gsmail.Prelude.Bytes.{Bytes}

-- base64.StdEncoding
abbrev pub sextet : ℕ → ℕ
sextet n =
    if ltb n 26
    then b'A' + n
    else if ltb n 52
    then b'a' + (n - 26)
    else if ltb n 62
    then b'0' + (n - 52)
    else if n == 62
    then b'+'
    else b'/'

unfoldable pub base64 : Bytes → Bytes
base64 [] = []
base64 (a ∷ []) = sextet (a / 4) ∷ sextet (a % 4 * 16) ∷ b'=' ∷ b'=' ∷ []
base64 (a ∷ b ∷ []) =
    sextet (a / 4) ∷ sextet (a % 4 * 16 + b / 16) ∷ sextet (b % 16 * 4) ∷ b'=' ∷ []
base64 (a ∷ b ∷ c ∷ s) =
    sextet (a / 4)
    ∷ sextet (a % 4 * 16 + b / 16)
    ∷ sextet (b % 16 * 4 + c / 64)
    ∷ sextet (c % 64)
    ∷ base64 s

abbrev pub crlf : Bytes
crlf = 13 ∷ 10 ∷ []

abbrev pub min : ℕ → ℕ → ℕ
min a b = if leb a b then a else b

abbrev pub put : Bytes → Option (Bytes × ℕ) → Option (Bytes × ℕ)
put out none = none
put out (some (rest, col)) = some (out ++ rest, col)

-- base64MIMEWriter.Write into a writer that takes everything, as the buffer of buildMessage does: what
-- is written, and the column; none where the fuel is spent. `column` is w.col after the test against 76.
unfoldable pub write_lines : ℕ → ℕ → Bytes → Option (Bytes × ℕ)
write_lines fuel col [] = some ([], col)
write_lines zero col (c ∷ p) = none
write_lines (suc fuel) col (c ∷ p) =
    let full = col == 76 in
    let column = if full then 0 else col in
    let n = min (76 - column) (length (c ∷ p)) in
    let rest = write_lines fuel (column + n) (drop n (c ∷ p)) in
    put ((if full then crlf else []) ++ take n (c ∷ p)) rest

abbrev pub written : Option (Bytes × ℕ) → Bytes
written none = []
written (some (out, col)) = out

-- The encoder's output as one call of Write, with a round of the loop for each byte of it.
unfoldable pub write_mime_base64 : Bytes → Bytes
unfolding write_lines base64
write_mime_base64 b = let encoded = base64 b in written (write_lines (length encoded) 0 encoded)
