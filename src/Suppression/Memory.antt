-- ===== src/Suppression/Memory.antt =====
-- suppression.go: NormalizeAddress and MemorySuppressionList. Every method runs under the lock of the
-- list, so a method is one step on its entries.
pub mod Laws
use gsmail.Prelude.{
  ℕ, Bool, true, false, not, ◌&&◌, ◌||◌, Option, none, some, List, [], ◌∷◌, length, if◌then◌else◌,
}
use gsmail.Prelude.Int.{ℤ}
use gsmail.Prelude.Bytes.{Bytes, bytes_eq}
use gsmail.Text.Search.{Unicode, to_lower, trim_space}
use gsmail.Address.{AddressParser, Parsed, parsed, parse_email_address}
use gsmail.Bounce.{Bounce, Complaint, is_hard}

pub data SuppressionReason : Type 0 where
  reason_hard_bounce reason_complaint reason_unsubscribe reason_manual : SuppressionReason

pub record SuppressionEntry : Type 0 where
  pub address : Bytes
  pub reason : SuppressionReason
  pub at : ℤ
  pub detail : Bytes

-- The map from normalised addresses to entries; nil and empty are one.
abbrev pub MemorySuppressionList : Type 0
MemorySuppressionList = List (Bytes × SuppressionEntry)

unfoldable pub lookup : Bytes → MemorySuppressionList → Option SuppressionEntry
lookup key [] = none
lookup key ((k, e) ∷ l) = if bytes_eq k key then some e else lookup key l

unfoldable pub assign : Bytes → SuppressionEntry → MemorySuppressionList → MemorySuppressionList
assign key e [] = (key, e) ∷ []
assign key e ((k, f) ∷ l) = if bytes_eq k key then (k, e) ∷ l else (k, f) ∷ assign key e l

unfoldable pub delete : Bytes → MemorySuppressionList → MemorySuppressionList
delete key [] = []
delete key ((k, e) ∷ l) = let rest = delete key l in if bytes_eq k key then rest else (k, e) ∷ rest

abbrev pub is_some : Option SuppressionEntry → Bool
is_some none = false
is_some (some e) = true

-- A value that Record may be given; `many` is a []any.
mutual
  pub data Event : Type 0 where
    bounce_event : Option Bounce → Event
    complaint_event : Option Complaint → Event
    many : Events → Event
    other_event : Event

  pub data Events : Type 0 where
    nil : Events
    cons : Event → Events → Events

abbrev address_or : Parsed → Bytes → Bytes
address_or (parsed a) s = a.address
address_or _ s = s

module _ (u : Unicode) (lib : AddressParser) where
  unfoldable pub normalize_address : Bytes → Bytes
  normalize_address address =
      let s = trim_space address in
      to_lower u (trim_space (address_or (parse_email_address lib s) s))

  unfoldable pub add_entry : SuppressionEntry → MemorySuppressionList → MemorySuppressionList
  unfolding assign
  add_entry e l =
      let key = normalize_address e.address in
      if bytes_eq key [] then l else assign key (record e { address = key }) l

  -- `now` is time.Now
  unfoldable pub add : ℤ → Bytes → SuppressionReason → MemorySuppressionList → MemorySuppressionList
  unfolding add_entry
  add now address reason =
      add_entry (record { address = address; reason = reason; at = now; detail = [] })

  unfoldable pub add_bounce : Option Bounce → MemorySuppressionList → MemorySuppressionList × Bool
  unfolding add_entry
  add_bounce none l = (l, false)
  add_bounce (some b) l =
      if not (is_hard b.bounce_type) || bytes_eq b.email_address [] then (l, false) else (
        add_entry
            (record {
              address = b.email_address;
              reason = reason_hard_bounce;
              at = b.timestamp;
              detail = b.reason;
            })
            l,
        true,
      )

  unfoldable pub add_complaint :
      Option Complaint → MemorySuppressionList → MemorySuppressionList × Bool
  unfolding add_entry
  add_complaint none l = (l, false)
  add_complaint (some c) l = if bytes_eq c.email_address [] then (l, false) else (
    add_entry
        (record {
          address = c.email_address;
          reason = reason_complaint;
          at = c.timestamp;
          detail = c.feedback_type;
        })
        l,
    true,
  )

  unfoldable pub remove : Bytes → MemorySuppressionList → MemorySuppressionList
  unfolding delete
  remove address l = delete (normalize_address address) l

  unfoldable pub entry : Bytes → MemorySuppressionList → Option SuppressionEntry
  unfolding lookup
  entry address l = lookup (normalize_address address) l

  -- its error is always nil
  unfoldable pub suppressed : Bytes → MemorySuppressionList → Bool
  unfolding lookup
  suppressed address l = is_some (lookup (normalize_address address) l)

  unfoldable pub len_entries : MemorySuppressionList → ℕ
  len_entries l = length l

  unfoldable mutual
    pub record_event : Event → MemorySuppressionList → MemorySuppressionList × Bool
    record_event (bounce_event b) l = add_bounce b l
    record_event (complaint_event c) l = add_complaint c l
    record_event (many es) l = record_events es l
    record_event other_event l = (l, false)

    pub record_events : Events → MemorySuppressionList → MemorySuppressionList × Bool
    record_events nil l = (l, false)
    record_events (cons e es) l =
        let (l1, suppressed) = record_event e l in
        let (l2, later) = record_events es l1 in (l2, suppressed || later)
