-- ===== src/Validator/Tests.antt =====
-- utils.go: the theorem on the Validator at a concrete network.
use gsmail.Prelude.{◌≡◌, ◌↔◌, true, false, none, [], ◌∷◌, ◌++◌, ◌==◌}
use gsmail.Prelude.Bytes.{codes}
use gsmail.Text.Search.{Unicode}
use gsmail.Validator.{Validator, Network, hosts, validate}
use gsmail.Validator.Laws.{IsAccepted, validate_iff}

abbrev ascii : Unicode
ascii = record { lower = λ r. r; upper = λ r. r; same_fold = λ r t. r == t }

-- one host, which takes every address
abbrev network : Network
network = record {
  lookup_mx = λ domain. hosts (record { host = codes "mail.x.io"; pref = 10 } ∷ []);
  join_host_port = λ host port. host ++ codes ":" ++ port;
  dial = λ addr. none;
  split_host_port = λ addr. none;
  new_client = λ addr. none;
  hello = λ addr name. none;
  mail = λ addr from. none;
  rcpt = λ addr to. none;
}

abbrev mailbox_check : Validator
mailbox_check = record {
  check_mx = false;
  check_mailbox = true;
  allow_disposable = false;
  disposable_domains = none;
  smtp_port = [];
  helo_name = [];
  mail_from = [];
}

validate_iff_example :
    (validate ascii network mailbox_check (codes "bob@x.io") ≡ none)
    ↔ IsAccepted ascii network mailbox_check (codes "bob@x.io")
validate_iff_example = validate_iff ascii network mailbox_check (codes "bob@x.io")
