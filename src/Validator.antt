-- ===== src/Validator.antt =====
-- utils.go: the Validator of addresses. DNS, the dialer and net/smtp's client are the record Network, which
-- answers by an address; net.JoinHostPort is a parameter.
mod Tests
pub mod Laws
use gsmail.Prelude.{
  ℕ, Bool, true, false, not, ◌&&◌, ◌||◌, Option, none, some, List, [], ◌∷◌, ◌++◌, length, ltb, leb,
  ◌==◌, if◌then◌else◌,
}
use gsmail.Prelude.Bytes.{Bytes, bytes_eq, codes}
use gsmail.Errors.{
  Error, sentinel, err_invalid_email_format, err_disposable_email, err_no_mx_records, errorf,
  non_retryable, or_else,
}
use gsmail.Text.Utf8.{between}
use gsmail.Text.Search.{Unicode, to_lower, cut, cut_last}
use gsmail.Identity.{is_empty}
use gsmail.Headers.{one_of}
use gsmail.Health.{Mx}

abbrev pub default_disposable_domains : List Bytes
default_disposable_domains =
    codes "10minutemail.com"
    ∷ codes "tempmail.org"
    ∷ codes "guerrillamail.com"
    ∷ codes "mailinator.com"
    ∷ codes "yopmail.com"
    ∷ codes "sharklasers.com"
    ∷ codes "getnada.com"
    ∷ codes "fakeinbox.com"
    ∷ codes "dispostable.com"
    ∷ codes "maildrop.cc"
    ∷ codes "throwawaymail.com"
    ∷ codes "tempmail.lol"
    ∷ codes "guerrillamail.info"
    ∷ codes "emailondeck.com"
    ∷ codes "armyspy.com"
    ∷ codes "cuvox.de"
    ∷ codes "dayrep.com"
    ∷ codes "einrot.com"
    ∷ codes "fleckens.hu"
    ∷ codes "gustr.com"
    ∷ codes "hst.tk"
    ∷ codes "jemoch.com"
    ∷ codes "mailinater.com"
    ∷ codes "moakt.com"
    ∷ codes "rhyta.com"
    ∷ codes "superrito.com"
    ∷ codes "teleworm.us"
    ∷ []

abbrev pub or_default : Option (List Bytes) → List Bytes
or_default (some set) = set
or_default none = default_disposable_domains

unfoldable pub is_disposable_domain : Unicode → Bytes → Option (List Bytes) → Bool
unfolding one_of
is_disposable_domain u domain set = one_of (to_lower u domain) (or_default set)

-- The regular expression: letters are in lower case by then.
unfoldable pub all_bytes : (ℕ → Bool) → Bytes → Bool
all_bytes f [] = true
all_bytes f (c ∷ s) = f c && all_bytes f s

abbrev pub is_lower : ℕ → Bool
is_lower c = between b'a' b'z' c

abbrev pub is_domain_byte : ℕ → Bool
is_domain_byte c = is_lower c || between b'0' b'9' c || c == b'.' || c == b'-'

abbrev pub is_local_byte : ℕ → Bool
is_local_byte c = is_domain_byte c || c == b'_' || c == b'%' || c == b'+'

-- `[a-z0-9.\-]+\.[a-z]{2,}$`, whose last dot is the last one of the text
abbrev pub match_domain : Option (Bytes × Bytes) → Bool
match_domain none = false
match_domain (some (domain, top)) =
    not (is_empty domain)
    && all_bytes is_domain_byte domain
    && leb 2 (length top)
    && all_bytes is_lower top

-- `^[a-z0-9._%+\-]+@`, and the domain
unfoldable pub match_local : Option (Bytes × Bytes) → Bool
unfolding all_bytes cut_last
match_local none = false
match_local (some (local, domain)) =
    not (is_empty local) && all_bytes is_local_byte local && match_domain (cut_last b'.' domain)

unfoldable pub is_valid_email : Unicode → Bytes → Bool
unfolding match_local cut
is_valid_email u email =
    if ltb (length email) 3 || ltb 254 (length email)
    then false
    else match_local (cut b'@' (to_lower u email))

-- IsDisposableEmail, by what is around the last @
unfoldable pub is_disposable_email : Unicode → Bytes → Bool
unfolding cut_last is_disposable_domain
is_disposable_email u email = elim (cut_last b'@' email) [
  | none ↦ false
  | some p ↦ if is_empty p.0 || is_empty p.1 then false else is_disposable_domain u p.1 none
]

pub record Validator : Type 0 where
  pub check_mx : Bool
  pub check_mailbox : Bool
  pub allow_disposable : Bool
  pub disposable_domains : Option (List Bytes)
  pub smtp_port : Bytes
  pub helo_name : Bytes
  pub mail_from : Bytes

abbrev pub or_text : Bytes → Bytes → Bytes
or_text [] default = default
or_text (c ∷ s) default = c ∷ s

-- What LookupMX returns.
pub data Hosts : Type 0 where
  hosts : List Mx → Hosts
  no_lookup : Error → Hosts

-- Dialing, SplitHostPort, the greeting and each command at an address fail with an error or not.
pub record Network : Type 0 where
  pub lookup_mx : Bytes → Hosts
  pub join_host_port : Bytes → Bytes → Bytes
  pub dial : Bytes → Option Error
  pub split_host_port : Bytes → Option Error
  pub new_client : Bytes → Option Error
  pub hello : Bytes → Bytes → Option Error
  pub mail : Bytes → Bytes → Option Error
  pub rcpt : Bytes → Bytes → Option Error

-- the text after the last @
abbrev pub domain_part : Option (Bytes × Bytes) → Bytes → Bytes
domain_part (some p) email = p.1
domain_part none email = email

module _ (u : Unicode) (net : Network) (v : Validator) where
  unfoldable pub probe : Bytes → Bytes → Option Error
  probe addr email = or_else (net.dial addr) (
      or_else (net.split_host_port addr) (
        or_else (net.new_client addr) (
          or_else (net.hello addr (or_text v.helo_name (codes "localhost")))
            (or_else (net.mail addr v.mail_from) (net.rcpt addr email)))))

  -- the loop over the hosts; `last` is the last error
  unfoldable pub probe_all : Bytes → List Mx → Option Error → Option Error
  unfolding probe
  probe_all email [] last = last
  probe_all email (mx ∷ mxs) last =
      elim (probe (net.join_host_port mx.host (or_text v.smtp_port (codes "25"))) email) [
        | none ↦ none
        | some e ↦ probe_all email mxs (some e)
      ]

  abbrev pub unverified : Option Error → Option Error
  unverified none = none
  unverified (some e) = some (errorf e)

  abbrev pub with_hosts : Bytes → Hosts → Option Error
  with_hosts email (no_lookup e) = some (errorf e)
  with_hosts email (hosts []) = non_retryable (some (errorf (sentinel err_no_mx_records)))
  with_hosts email (hosts (mx ∷ mxs)) =
      if v.check_mailbox then unverified (probe_all email (mx ∷ mxs) none) else none

  unfoldable pub validate : Bytes → Option Error
  unfolding is_valid_email is_disposable_domain cut_last probe_all
  validate email =
      let domain = domain_part (cut_last b'@' email) email in
      if not (is_valid_email u email)
      then non_retryable (some (sentinel err_invalid_email_format))
      else if not v.allow_disposable && is_disposable_domain u domain v.disposable_domains
      then non_retryable (some (sentinel err_disposable_email))
      else if not v.check_mx && not v.check_mailbox
      then none
      else with_hosts email (net.lookup_mx domain)
