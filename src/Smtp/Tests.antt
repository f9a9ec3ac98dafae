-- ===== src/Smtp/Tests.antt =====
-- smtp/smtp.go: the theorems on delivery at a concrete connection.
use gsmail.Prelude.{ℕ, suc, ◌≡◌, refl, none, some, [], ◌∷◌}
use gsmail.Prelude.Bytes.{codes}
use gsmail.Address.{AddressParser}
use gsmail.Smtp.{SmtpClient, address_of, send_on_client, write_data}
use gsmail.Smtp.Delivery.{Accepted, send_on_client-none}

-- every address is a bare one
abbrev bare : AddressParser
bare = record { parse = λ s. some (record { name = []; address = s }); format = λ a. a.address }

-- a server that takes everything; the state counts the commands
abbrev willing : SmtpClient ℕ
willing = record {
  mail = λ a n. (none, suc n);
  rcpt = λ a n. (none, suc n);
  start_data = λ n. (none, suc n);
  write_message = λ m n. (none, suc n);
  close_data = λ n. (none, suc n);
}

delivered :
    send_on_client willing bare
      (codes "a@x.io")
      (codes "b@x.io" ∷ codes "c@x.io" ∷ [])
      (codes "Hi")
      0
    ≡ (none, 6)
unfolding send_on_client write_data
delivered = refl

send_on_client-none_example :
    (s1 s2 s3 s4 : ℕ) × (willing.mail (address_of bare (codes "a@x.io")) 0 ≡ (none, s1))
    × Accepted willing (address_of bare) (codes "b@x.io" ∷ codes "c@x.io" ∷ []) s1 s2
    × (willing.start_data s2 ≡ (none, s3))
    × (willing.write_message (codes "Hi") s3 ≡ (none, s4))
    × (willing.close_data s4 ≡ (none, 6))
send_on_client-none_example =
    send_on_client-none willing bare (codes "a@x.io") (codes "b@x.io" ∷ codes "c@x.io" ∷ [])
      (codes "Hi") 0 6 delivered
