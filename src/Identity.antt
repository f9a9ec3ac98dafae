-- ===== src/Identity.antt =====
-- identity.go: a message's header fields, its Message-ID, and what identifies it. SHA-256 is the
-- parameter `sha256`.
mod Tests
pub mod Content
pub mod Mailbox
use gsmail.Prelude.{
  ℕ, zero, suc, ◌+◌, ◌-◌, ◌/◌, ◌%◌, Bool, not, ◌&&◌, Option, none, some, List, [], ◌∷◌, ◌++◌,
  length, ltb, ◌==◌, if◌then◌else◌,
}
use gsmail.Prelude.Bytes.{Bytes, bytes_eq, codes}
use gsmail.Text.Search.{Unicode, equal_fold, trim_space, trim_first, trim_last}
use gsmail.Email.{Attachment, Email}

pub data IdentitySource : Type 0 where
  identity_message_id identity_uid identity_content identity_none : IdentitySource

-- e.Headers[name]
unfoldable pub field : Bytes → List (Bytes × Bytes) → Option Bytes
field name [] = none
field name ((k, v) ∷ m) = if bytes_eq k name then some v else field name m

-- strconv.FormatUint in base ten: no more than `digits` digits, which is 20 for 64 bits
unfoldable pub decimal : ℕ → ℕ → Bytes
decimal zero n = []
decimal (suc digits) n =
    let high = decimal digits (n / 10) in
    if ltb n 10 then (b'0' + n) ∷ [] else high ++ (b'0' + n % 10) ∷ []

-- the low `size` bytes of a number, from the highest on: byte(n >> (8 * i)) for i = size-1, …, 0
unfoldable pub big_endian : ℕ → ℕ → Bytes
big_endian zero n = []
big_endian (suc size) n = big_endian size (n / 256) ++ n % 256 ∷ []

-- the closure `write` of contentDigest
unfoldable pub write : Bytes → Bytes
unfolding big_endian
write b = big_endian 8 (length b) ++ b

unfoldable pub write_all : List Bytes → Bytes
write_all [] = []
write_all (b ∷ bs) = write b ++ write_all bs

unfoldable pub write_attachments : List Attachment → Bytes
write_attachments [] = []
write_attachments (a ∷ as') = write a.filename ++ (write a.content ++ write_attachments as')

-- hex.EncodeToString
abbrev pub hex_lower : ℕ → ℕ
hex_lower n = if ltb n 10 then b'0' + n else b'a' + (n - 10)

unfoldable pub hex_encode : Bytes → Bytes
hex_encode [] = []
hex_encode (c ∷ s) = hex_lower (c / 16) ∷ hex_lower (c % 16) ∷ hex_encode s

abbrev pub is_empty {ℓ} : {A : Type ℓ} → List A → Bool
is_empty xs = length xs == 0

abbrev pub mailbox_of : Email → Bytes
mailbox_of e = if bytes_eq e.mailbox [] then codes "INBOX" else e.mailbox

module _ (u : Unicode) where
  -- the first field, in the order of a range loop, whose name is equal under case folding
  unfoldable pub folded_field : Bytes → List (Bytes × Bytes) → Bytes
  folded_field name [] = []
  folded_field name ((k, v) ∷ m) = if equal_fold u k name then v else folded_field name m

  unfoldable pub header : Email → Bytes → Bytes
  unfolding field folded_field
  header e name = elim (field name e.headers) [ some v ↦ v | none ↦ folded_field name e.headers ]

  unfoldable pub message_id : Email → Bytes
  unfolding header
  message_id e =
      trim_space (trim_last b'>' (trim_first b'<' (trim_space (header e (codes "Message-ID")))))

  -- what contentDigest hashes
  unfoldable pub content : Email → Bytes
  unfolding write_all write_attachments
  content e =
      write e.from
      ++ (write e.subject
          ++ (write (header e (codes "Date"))
              ++ (write_all e.to
                  ++ (write e.body ++ (write e.html_body ++ write_attachments e.attachments)))))

  module _ (sha256 : Bytes → Bytes) where
    unfoldable pub content_digest : Email → Bytes
    unfolding content hex_encode
    content_digest e =
        if is_empty e.from
          && is_empty e.subject
          && is_empty e.body
          && is_empty e.html_body
          && is_empty e.attachments
        then []
        else hex_encode (sha256 (content e))

    unfoldable pub message_identity : Email → Bytes × IdentitySource
    unfolding message_id decimal content_digest
    message_identity e =
        if not (is_empty (message_id e))
        then (message_id e, identity_message_id)
        else if not (e.uid == 0)
        then (mailbox_of e ++ (b'/' ∷ decimal 20 e.uid), identity_uid)
        else if not (is_empty (content_digest e))
        then (content_digest e, identity_content)
        else ([], identity_none)
