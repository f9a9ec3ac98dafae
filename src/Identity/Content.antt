-- ===== src/Identity/Content.antt =====
-- identity.go: which messages have the same content.
use gsmail.Prelude.{
  ℕ, zero, suc, ◌+◌, ◌/◌, ◌%◌, ◌^◌, ◌<◌, ◌≡◌, refl, ap, sym, ◌∙◌, List, [], ◌∷◌, ◌++◌, map,
  append_assoc, length, length-append, arith, All,
}
use gsmail.Prelude.Bytes.{Bytes, codes}
use gsmail.Text.Search.{Unicode}
use gsmail.Email.{Attachment, Email}
use gsmail.Identity.{big_endian, write, write_all, write_attachments, header, content}

append_cancel {ℓ} :
    {A : Type ℓ} (xs ys : List A) {us vs : List A}
    → length xs ≡ length ys
    → xs ++ us ≡ ys ++ vs
    → (xs ≡ ys) × (us ≡ vs)
append_cancel [] [] n e = (refl, e)
append_cancel [] (y ∷ ys) n e = absurd (omega (arith, n))
append_cancel (x ∷ xs) [] n e = absurd (omega (arith, n))
append_cancel (x ∷ xs) (y ∷ ys) {us} {vs} n e =
    let tails : xs ++ us ≡ ys ++ vs = cc in
    let rest = append_cancel xs ys (omega (arith, n)) tails in
    let heads : x ≡ y = cc in (ap (λ z. z ∷ xs) heads ∙ ap (λ zs. y ∷ zs) rest.0, rest.1)

length-big_endian : (k n : ℕ) → length (big_endian k n) ≡ k
unfolding big_endian
length-big_endian zero n = refl
length-big_endian (suc k) n =
    omega
      (arith, length-append (big_endian k (n / 256)) (n % 256 ∷ []), length-big_endian k (n / 256))

big_endian-injective :
    (k m n : ℕ) → m < 256 ^ k → n < 256 ^ k → big_endian k m ≡ big_endian k n → m ≡ n
unfolding big_endian
big_endian-injective zero m n hm hn e = omega arith
big_endian-injective (suc k) m n hm hn e =
    let parts =
      append_cancel (big_endian k (m / 256)) (big_endian k (n / 256))
        (length-big_endian k (m / 256) ∙ sym (length-big_endian k (n / 256))) e in
    let low : m % 256 ≡ n % 256 = cc (parts.1) in
    let high =
      big_endian-injective k (m / 256) (n / 256) (omega (arith, hm)) (omega (arith, hn)) parts.0 in
    omega (arith, low, high)

-- the length of a Go slice fits in 64 bits
abbrev pub IsShort : Bytes → Type 0
IsShort b = length b < 256 ^ 8

write-injective :
    (a b : Bytes) {x y : Bytes}
    → IsShort a
    → IsShort b
    → write a ++ x ≡ write b ++ y
    → (a ≡ b) × (x ≡ y)
unfolding write
write-injective a b {x} {y} ha hb e =
    let parts =
      append_cancel (big_endian 8 (length a)) (big_endian 8 (length b))
        (length-big_endian 8 (length a) ∙ sym (length-big_endian 8 (length b)))
        (sym (append_assoc (big_endian 8 (length a)) a x)
          ∙ e
          ∙ append_assoc (big_endian 8 (length b)) b y) in
    append_cancel a b (big_endian-injective 8 (length a) (length b) ha hb parts.0) parts.1

write_all-injective :
    (as' bs : List Bytes) {x y : Bytes}
    → length as' ≡ length bs
    → All IsShort as'
    → All IsShort bs
    → write_all as' ++ x ≡ write_all bs ++ y
    → (as' ≡ bs) × (x ≡ y)
unfolding write_all
write_all-injective [] [] n ha hb e = (refl, e)
write_all-injective [] (b ∷ bs) n ha hb e = absurd (omega (arith, n))
write_all-injective (a ∷ as') [] n ha hb e = absurd (omega (arith, n))
write_all-injective (a ∷ as') (b ∷ bs) {x} {y} n ha hb e =
    let first = write-injective a b ha.0 hb.0 (
      sym (append_assoc (write a) (write_all as') x)
      ∙ e
      ∙ append_assoc (write b) (write_all bs) y) in
    let rest = write_all-injective as' bs (omega (arith, n)) ha.1 hb.1 first.1 in
    (ap (λ z. z ∷ as') first.0 ∙ ap (λ zs. b ∷ zs) rest.0, rest.1)

-- what is hashed of an attachment
abbrev pub file : Attachment → Bytes × Bytes
file a = (a.filename, a.content)

abbrev pub IsShortFile : Attachment → Type 0
IsShortFile a = IsShort a.filename × IsShort a.content

length-write : (b : Bytes) → length (write b) ≡ 8 + length b
unfolding write
length-write b =
    omega (arith, length-append (big_endian 8 (length b)) b, length-big_endian 8 (length b))

write-nonempty : (b x : Bytes) → write b ++ x ≡ [] → ⊥
write-nonempty b x e = omega (arith, ap length e, length-append (write b) x, length-write b)

write_attachments-injective :
    (as' bs : List Attachment)
    → All IsShortFile as'
    → All IsShortFile bs
    → write_attachments as' ≡ write_attachments bs
    → map file as' ≡ map file bs
unfolding write_attachments
write_attachments-injective [] [] ha hb e = refl
write_attachments-injective [] (b ∷ bs) ha hb e = absurd (write-nonempty b.filename _ (sym e))
write_attachments-injective (a ∷ as') [] ha hb e = absurd (write-nonempty a.filename _ e)
write_attachments-injective (a ∷ as') (b ∷ bs) ha hb e =
    let name = write-injective a.filename b.filename ha.0.0 hb.0.0 e in
    let data' = write-injective a.content b.content ha.0.1 hb.0.1 name.1 in
    let rest = write_attachments-injective as' bs ha.1 hb.1 data'.1 in
    ap (λ (n : Bytes). (n, a.content) ∷ map file as') name.0
    ∙ ap (λ (d : Bytes). (b.filename, d) ∷ map file as') data'.0
    ∙ ap (λ zs. file b ∷ zs) rest

module _ (u : Unicode) where
  pub record IsSmall (e : Email) : Type 0 where
    pub from : IsShort e.from
    pub subject : IsShort e.subject
    pub date : IsShort (header u e (codes "Date"))
    pub to : All IsShort e.to
    pub body : IsShort e.body
    pub html_body : IsShort e.html_body
    pub attachments : All IsShortFile e.attachments

  -- Two messages with the same number of To addresses for which contentDigest hashes the same bytes
  -- agree in every field that it reads, if no field is longer than 64 bits can say: no byte can
  -- move from one field to the next.
  pub content-injective :
      (a b : Email)
      → IsSmall a
      → IsSmall b
      → length a.to ≡ length b.to
      → content u a ≡ content u b
      → (a.from ≡ b.from)
        × (a.subject ≡ b.subject)
        × (header u a (codes "Date") ≡ header u b (codes "Date"))
        × (a.to ≡ b.to)
        × (a.body ≡ b.body)
        × (a.html_body ≡ b.html_body)
        × (map file a.attachments ≡ map file b.attachments)
  unfolding content
  content-injective a b ha hb n e =
      let from = write-injective a.from b.from ha.from hb.from e in
      let subject = write-injective a.subject b.subject ha.subject hb.subject from.1 in
      let date =
        write-injective (header u a (codes "Date")) (header u b (codes "Date")) ha.date hb.date
          subject.1 in
      let to = write_all-injective a.to b.to n ha.to hb.to date.1 in
      let body = write-injective a.body b.body ha.body hb.body to.1 in
      let html = write-injective a.html_body b.html_body ha.html_body hb.html_body body.1 in
      let files =
        write_attachments-injective a.attachments b.attachments ha.attachments hb.attachments
          html.1 in
      (from.0, subject.0, date.0, to.0, body.0, html.0, files)
