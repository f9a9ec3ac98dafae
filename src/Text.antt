-- ===== src/Text.antt =====
-- What the program uses of Go's strings and unicode/utf8 packages, on strings as bytes.
pub mod Utf8
pub mod Search
pub mod Parts
