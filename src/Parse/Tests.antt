-- ===== src/Parse/Tests.antt =====
-- utils.go: the theorems on parsed messages at a concrete message.
use gsmail.Prelude.{ℕ, zero, suc, ◌≡◌, refl, true, false, none, some, [], ◌∷◌, ◌==◌, if◌then◌else◌}
use gsmail.Prelude.Bytes.{Bytes, bytes_eq, codes}
use gsmail.Text.Search.{Unicode, has_prefix}
use gsmail.Address.{AddressParser}
use gsmail.Errors.{sentinel, err_too_deeply_nested}
use gsmail.Parse.{MailHeader, Entity, MimeLibrary, parse_entity, parse_raw_email}
use gsmail.Parse.Bounds.{IsBounded, parse_raw_email-IsBounded}
use gsmail.Parse.Depth.{Nested, parse_entity-Nested}
use gsmail.Parse.Legal.{IsLegalEmail, parse_raw_email-IsLegalEmail}

abbrev ascii : Unicode
ascii = record { lower = λ r. r; upper = λ r. r; same_fold = λ r t. r == t }

abbrev bare : AddressParser
bare = record { parse = λ s. some (record { name = []; address = s }); format = λ a. a.address }

-- a field of the header for every name
abbrev header : Bytes → MailHeader
header s = record {
  get = λ name. if bytes_eq name (codes "Content-Type") then codes "multipart/mixed" else s;
  entries = (codes "X-Tag", codes "1\r2" ∷ []) ∷ (codes "Subject", s ∷ []) ∷ [];
}

abbrev leaf : Entity
leaf = record {
  header = record { get = λ name. codes "text/plain"; entries = [] };
  stream = record { content = codes "Hello"; failure = none };
}

-- a library for which every message is multipart, with the text as the address of everyone and one part
abbrev library : MimeLibrary
library = record {
  unicode = ascii;
  addresses = bare;
  parse_address_list = λ s. none;
  read_message = λ raw.
      some (record { header = header raw; stream = record { content = raw; failure = none } });
  decode_header = λ s. s;
  parse_media_type = λ s. record { media_type = s; param = λ name. codes "b"; malformed = false };
  parts = λ s b. (leaf ∷ [], none);
  base64_reader = λ s. s;
  quoted_reader = λ s. s;
  trim_angles = λ s. s;
}

parse_raw_email-IsBounded_example :
    IsBounded (parse_raw_email library (codes "a@x.io, b@x.io\r\nBcc: c")).0
parse_raw_email-IsBounded_example =
    parse_raw_email-IsBounded library (codes "a@x.io, b@x.io\r\nBcc: c")

parse_raw_email-IsLegalEmail_example :
    IsLegalEmail (parse_raw_email library (codes "a@x.io, b@x.io\r\nBcc: c")).0
parse_raw_email-IsLegalEmail_example =
    parse_raw_email-IsLegalEmail library (codes "a@x.io, b@x.io\r\nBcc: c")

-- a part that is a container of another such part
abbrev container : Entity
container = record {
  header = record { get = λ name. codes "multipart/mixed"; entries = [] };
  stream = record { content = []; failure = none };
}

abbrev deep_library : MimeLibrary
deep_library = record library { parts = λ s b. (container ∷ [], none) }

deep-Nested : (n : ℕ) → Nested deep_library n container.stream (codes "b")
unfolding Nested has_prefix
deep-Nested zero = tt
deep-Nested (suc n) = (refl, (container, [], refl, refl, deep-Nested n))

is_multipart : has_prefix (codes "multipart/mixed") (codes "multipart/") ≡ true
unfolding has_prefix
is_multipart = refl

parse_entity-Nested_example :
    (parse_entity deep_library container).1 ≡ some (sentinel err_too_deeply_nested)
parse_entity-Nested_example =
    parse_entity-Nested deep_library container refl is_multipart (deep-Nested 10)
