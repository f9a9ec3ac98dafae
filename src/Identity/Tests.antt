-- ===== src/Identity/Tests.antt =====
-- identity.go: the theorems on what identifies a message at concrete messages.
use gsmail.Prelude.{ℕ, ◌≡◌, refl, ◌==◌, [], ◌∷◌, map, arith}
use gsmail.Prelude.Bytes.{codes}
use gsmail.Text.Search.{Unicode, trim_space, trim_last}
use gsmail.Email.{Email, empty_email}
use gsmail.Identity.{header, message_id, content, write_all, write_attachments, write}
use gsmail.Identity.Content.{IsSmall, file, content-injective}

abbrev ascii : Unicode
ascii = record { lower = λ r. r; upper = λ r. r; same_fold = λ r t. r == t }

abbrev fetched : ℕ → Email
fetched uid = record empty_email {
  uid = uid;
  mailbox = codes "A/B";
  subject = codes "Hi";
  to = codes "x" ∷ [];
  attachments =
      record { filename = codes "f"; content_type = []; content_id = []; content = codes "c" } ∷ [];
}

fetched-IsSmall : (uid : ℕ) → IsSmall ascii (fetched uid)
unfolding header
fetched-IsSmall uid = record {
  from = omega arith;
  subject = omega arith;
  date = omega arith;
  to = (omega arith, tt);
  body = omega arith;
  html_body = omega arith;
  attachments = ((omega arith, omega arith), tt);
}

same_content : content ascii (fetched 5) ≡ content ascii (fetched 6)
unfolding content header
same_content = refl

content-injective_example :
    ((fetched 5).from ≡ (fetched 6).from)
    × ((fetched 5).subject ≡ (fetched 6).subject)
    × (header ascii (fetched 5) (codes "Date") ≡ header ascii (fetched 6) (codes "Date"))
    × ((fetched 5).to ≡ (fetched 6).to)
    × ((fetched 5).body ≡ (fetched 6).body)
    × ((fetched 5).html_body ≡ (fetched 6).html_body)
    × (map file (fetched 5).attachments ≡ map file (fetched 6).attachments)
content-injective_example =
    content-injective ascii (fetched 5) (fetched 6) (fetched-IsSmall 5) (fetched-IsSmall 6) refl
      same_content

-- Where the numbers of To addresses differ, two addresses pass for the bodies, and the bodies for an
-- attachment.
addressed_shares_content :
    content ascii (record empty_email {
      to = codes "x" ∷ codes "y" ∷ [];
      body = codes "b";
      html_body = codes "h";
    })
    ≡ content ascii (record empty_email {
      body = codes "x";
      html_body = codes "y";
      attachments =
          record { filename = codes "b"; content_type = []; content_id = []; content = codes "h" }
          ∷ [];
    })
unfolding content header write_all write_attachments write
addressed_shares_content = refl

unnamed : message_id ascii (fetched 42) ≡ []
unfolding message_id header trim_space trim_last
unnamed = refl
