-- ===== src/Suppression/Memory/Laws.antt =====
-- suppression.go: what the list answers after each of its methods.
use gsmail.Prelude.{
  ◌≡◌, ◌≢◌, refl, true, false, not, ◌&&◌, ◌||◌, none, some, [], ◌∷◌, arith, if◌then◌else◌,
}
use gsmail.Prelude.Bytes.{Bytes, bytes_eq, bytes_eq_iff, bytes_eq_refl}
use gsmail.Text.Search.{Unicode}
use gsmail.Address.{AddressParser}
use gsmail.Bounce.{Bounce, hard}
use gsmail.Suppression.Memory.{
  SuppressionEntry, MemorySuppressionList, lookup, assign, delete, normalize_address, add_entry,
  add_bounce, remove, suppressed, reason_hard_bounce,
}

lookup-assign :
    (k j : Bytes) (e : SuppressionEntry) (l : MemorySuppressionList)
    → lookup j (assign k e l) ≡ (if bytes_eq k j then some e else lookup j l)
unfolding lookup assign
lookup-assign k j e [] = refl
lookup-assign k j e ((i, f) ∷ l) =
    ground (arith, bytes_eq_iff k j, bytes_eq_iff i k, bytes_eq_iff i j, lookup-assign k j e l)

lookup-delete :
    (k j : Bytes) (l : MemorySuppressionList)
    → lookup j (delete k l) ≡ (if bytes_eq k j then none else lookup j l)
unfolding lookup delete
lookup-delete k j [] = ground arith
lookup-delete k j ((i, f) ∷ l) =
    ground (arith, bytes_eq_iff k j, bytes_eq_iff i k, bytes_eq_iff i j, lookup-delete k j l)

module _ (u : Unicode) (lib : AddressParser) where
  abbrev normal : Bytes → Bytes
  normal = normalize_address u lib

  -- After AddEntry and after Remove the list answers for every address: by its normal form it is
  -- the one that was added (which takes effect unless it is blank), or removed, or as before.
  pub suppressed-updates :
      (e : SuppressionEntry) (b a : Bytes) (l : MemorySuppressionList)
      → (suppressed u lib a (add_entry u lib e l) ≡ (
          (not (bytes_eq (normal e.address) []) && bytes_eq (normal e.address) (normal a))
          || suppressed u lib a l))
        × (suppressed u lib a (remove u lib b l)
            ≡ (not (bytes_eq (normal b) (normal a)) && suppressed u lib a l))
  unfolding add_entry suppressed remove
  suppressed-updates e b a l = (
    ground (
      arith,
      lookup-assign (normal e.address) (normal a) (record e { address = normal e.address }) l,
    ),
    ground (arith, lookup-delete (normal b) (normal a) l),
  )

  -- A hard bounce with an address that does not normalise to nothing suppresses it, in all
  -- spellings with its normal form; any other bounce leaves the list alone, and AddBounce says so.
  pub suppressed-add_bounce :
      (b : Bounce) (a : Bytes) (l : MemorySuppressionList)
      → normal b.email_address ≢ []
      → normal a ≡ normal b.email_address
      → (b.bounce_type ≡ hard
          → b.email_address ≢ []
          → suppressed u lib a (add_bounce u lib (some b) l).0 ≡ true)
        × (b.bounce_type ≢ hard → add_bounce u lib (some b) l ≡ (l, false))
  unfolding add_bounce suppressed
  suppressed-add_bounce b a l known same = (
    λ h filled. ground (
      arith,
      bytes_eq_iff b.email_address [],
      bytes_eq_iff (normal b.email_address) [],
      bytes_eq_refl (normal b.email_address),
      lookup-assign (normal b.email_address) (normal a)
          (record {
            address = normal b.email_address;
            reason = reason_hard_bounce;
            at = b.timestamp;
            detail = b.reason;
          })
          l,
    ),
    ground arith,
  )
