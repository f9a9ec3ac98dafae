-- ===== src/Suppression/Tests.antt =====
-- suppression.go: the theorems on the suppression list at concrete addresses.
use gsmail.Prelude.{
  ◌≡◌, ◌≢◌, refl, ◌⊎◌, true, false, Option, some, List, [], ◌∷◌, All, ◌==◌, if◌then◌else◌,
}
use gsmail.Prelude.Int.{pos}
use gsmail.Prelude.Bytes.{Bytes, bytes_eq, codes}
use gsmail.Errors.{Error}
use gsmail.Text.Utf8.{runes_after, encode_rune}
use gsmail.Text.Search.{
  Unicode, to_lower, trim_space, contains, has_prefix, split, trim_start, space_width,
  space_width_back,
}
use gsmail.Address.{AddressParser, parse_email_address}
use gsmail.Bounce.{Bounce, hard}
use gsmail.Email.{Email, empty_email}
use gsmail.Suppression.Memory.{
  MemorySuppressionList, SuppressionEntry, normalize_address, add_bounce, suppressed, reason_manual,
}
use gsmail.Suppression.Intercept.{Answer, withheld, suppress}
use gsmail.Suppression.Intercept.Laws.{filtered, Refuses, PassesOn, suppress-dispatch}
use gsmail.Suppression.Loop.{asks, suppress-add_bounce}
use gsmail.Bounce.Report.{
  HeaderRead, bounced, is_rfc822, find_original_msg_id, parse_dsn, first_part, parse_bounce,
}
use gsmail.Suppression.Report.{parse_bounce-suppressed}

abbrev ascii : Unicode
ascii = record { lower = λ r. r; upper = λ r. r; same_fold = λ r t. r == t }

-- every address is a bare one
abbrev bare : AddressParser
bare = record { parse = λ s. some (record { name = []; address = s }); format = λ a. a.address }

abbrev bounce : Bytes → Bounce
bounce address = record {
  bounce_type = hard;
  email_address = address;
  reason = codes "gone";
  status = codes "5.1.1";
  timestamp = pos 7;
  original_msg_id = [];
  provider = [];
}

abbrev bob : Bytes
bob = codes "Bob@x.io"

abbrev manual : SuppressionEntry
manual = record { address = bob; reason = reason_manual; at = pos 1; detail = [] }

abbrev email : Email
email = record empty_email { to = bob ∷ codes "eve@x.io" ∷ [] }

bob_normal :
    (normalize_address ascii bare bob ≡ codes "bob@x.io")
    × (normalize_address ascii bare (codes "bob@x.io") ≡ codes "bob@x.io")
    × (normalize_address ascii bare (codes "  ") ≡ [])
unfolding normalize_address to_lower runes_after trim_space parse_email_address bytes_eq encode_rune
bob_normal = (refl, refl, refl)

bob_known : normalize_address ascii bare bob ≢ []
bob_known = rw bob_normal.0 (λ e. cc e)

bob_stable :
    normalize_address ascii bare (normalize_address ascii bare bob)
    ≡ normalize_address ascii bare bob
bob_stable = rw bob_normal.0 bob_normal.1

-- withholds one address
abbrev withholds : Bytes → Answer
withholds a = withheld (bytes_eq a bob)

suppress-dispatch_example :
    Refuses (λ a. a) withholds false (suppress (λ a. a) withholds false email)
    ⊎ PassesOn (λ a. a) withholds false email (suppress (λ a. a) withholds false email)
suppress-dispatch_example = suppress-dispatch (λ a. a) withholds false email

abbrev bounced_list : MemorySuppressionList
bounced_list = (add_bounce ascii bare (some (bounce bob)) []).0

abbrev asked : Bytes → Answer
asked = asks ascii bare bounced_list

abbrev Elsewhere : List Bytes → Type 0
Elsewhere = All (λ a. normalize_address ascii bare a ≢ normalize_address ascii bare bob)

suppress-add_bounce_example :
    let run = suppress (normalize_address ascii bare) asked false email in
    let sent = filtered (normalize_address ascii bare) asked false email in
    Refuses (normalize_address ascii bare) asked false run
    ⊎ (((next : Email → Option Error) → (run next).0 ≡ next sent)
        × Elsewhere sent.to
        × Elsewhere sent.cc
        × Elsewhere sent.bcc)
suppress-add_bounce_example =
    suppress-add_bounce ascii bare (bounce bob) [] false refl (λ e. cc e) bob_known bob_stable email

-- a delivery status in which every field is the address or the status of it
abbrev status_header : Bytes → HeaderRead
status_header content = record {
  header = some λ name.
      if bytes_eq name (codes "Final-Recipient") then codes "rfc822; bob@x.io" else codes "5.1.1";
  failed = false;
  rest = [];
}

abbrev returned_mail : Email
returned_mail = record empty_email {
  attachments =
      record {
        filename = [];
        content_type = codes "Message/Delivery-Status";
        content_id = [];
        content = [];
      }
      ∷ [];
}

abbrev returned_bounce : Bounce
returned_bounce = record {
  bounce_type = hard;
  email_address = codes "bob@x.io";
  reason = codes "5.1.1";
  status = codes "5.1.1";
  timestamp = pos 7;
  original_msg_id = [];
  provider = [];
}

returned_mail_parsed :
    parse_bounce ascii status_header (pos 7) returned_mail ≡ bounced returned_bounce
unfolding parse_bounce parse_dsn first_part contains has_prefix to_lower runes_after encode_rune
    split trim_space trim_start space_width space_width_back find_original_msg_id is_rfc822 bytes_eq
returned_mail_parsed = refl

recipient_known : normalize_address ascii bare (codes "bob@x.io") ≢ []
recipient_known = rw bob_normal.1 (λ e. cc e)

parse_bounce-suppressed_example :
    (has_prefix (codes "5.1.1") (codes "5") ≡ true
      → suppressed ascii bare (codes "bob@x.io") (add_bounce ascii bare (some returned_bounce) []).0
        ≡ true)
    × (has_prefix (codes "5.1.1") (codes "5") ≡ false
        → add_bounce ascii bare (some returned_bounce) [] ≡ ([], false))
parse_bounce-suppressed_example =
    parse_bounce-suppressed ascii status_header (pos 7) bare returned_mail returned_bounce []
      returned_mail_parsed (λ e. cc) recipient_known
