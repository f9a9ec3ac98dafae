-- ===== src/Mime/Tests.antt =====
-- utils.go: examples for base64 and its lines.
use gsmail.Prelude.{◌≡◌, refl, ◌++◌, length, some, arith}
use gsmail.Prelude.Bytes.{Bytes, codes}
use gsmail.Mime.{base64, write_lines}
use gsmail.Mime.Lines.{fold, column_after, write_next, write_lines-fold, write_lines-append}

abbrev text : Bytes
text = codes "An attachment of sixty bytes, so that its encoding is two lines long."

encoded_prefix : base64 (codes "Man and") ≡ codes "TWFuIGFuZA=="
unfolding base64
encoded_prefix = refl

write_lines-fold_example :
    write_lines 100 0 (base64 text) ≡ some (fold 0 (base64 text), column_after 0 (base64 text))
unfolding base64
write_lines-fold_example = write_lines-fold 100 0 (base64 text) (omega arith) (omega arith)

write_lines-append_example :
    write_next (base64 text) (write_lines (length (base64 text)) 70 (base64 text))
    ≡ write_lines (length (base64 text ++ base64 text)) 70 (base64 text ++ base64 text)
write_lines-append_example = write_lines-append 70 (base64 text) (base64 text) (omega arith)
