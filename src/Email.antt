-- ===== src/Email.antt =====
-- email.go: a message, and its custom headers.
use gsmail.Prelude.{ℕ, Bool, false, List, [], ◌∷◌, if◌then◌else◌}
use gsmail.Prelude.Bytes.{Bytes, bytes_eq}

pub record Attachment : Type 0 where
  pub filename : Bytes
  pub content_type : Bytes
  pub content_id : Bytes
  pub content : Bytes

-- The map of headers is the list of its entries, in the order in which a range loop visits them; a
-- nil map is the empty one. The template functions HTMLFuncs and TextFuncs are left out.
pub record Email : Type 0 where
  pub uid : ℕ
  pub mailbox : Bytes
  pub from : Bytes
  pub to : List Bytes
  pub cc : List Bytes
  pub bcc : List Bytes
  pub reply_to : Bytes
  pub subject : Bytes
  pub body : Bytes
  pub html_body : Bytes
  pub attachments : List Attachment
  pub outlook_compatible : Bool
  pub headers : List (Bytes × Bytes)
  pub envelope : List Bytes

abbrev pub empty_email : Email
empty_email = record {
  uid = 0;
  mailbox = [];
  from = [];
  to = [];
  cc = [];
  bcc = [];
  reply_to = [];
  subject = [];
  body = [];
  html_body = [];
  attachments = [];
  outlook_compatible = false;
  headers = [];
  envelope = [];
}

-- m[name] = value
unfoldable pub assign : Bytes → Bytes → List (Bytes × Bytes) → List (Bytes × Bytes)
assign name value [] = (name, value) ∷ []
assign name value ((k, v) ∷ m) =
    if bytes_eq k name then (k, value) ∷ m else (k, v) ∷ assign name value m

unfoldable pub set_header : Bytes → Bytes → Email → Email
unfolding assign
set_header name value e = record e { headers = assign name value e.headers }
