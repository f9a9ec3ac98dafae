-- ===== src/MessageId/Tests.antt =====
-- utils.go: the theorem on generated Message-IDs at a concrete sender.
use gsmail.Prelude.{◌≡◌, refl, [], ◌∷◌, ◌++◌, length, ◌+◌, All, arith}
use gsmail.Prelude.Bytes.{Bytes, codes}
use gsmail.Text.Search.{trim_space, cut}
use gsmail.MessageId.{message_id_domain, generate_message_id, is_safe_message_id_domain}
use gsmail.MessageId.Safety.{IsHex, IsSafe, generate_message_id-IsSafe}

abbrev sender : Bytes
sender = codes "A @ B <a@good.test>"

-- The domain is that of the angle-addr.
sender-domain : message_id_domain sender ≡ codes "good.test"
unfolding message_id_domain trim_space cut is_safe_message_id_domain
sender-domain = refl

generate_message_id-IsSafe_example :
    (left domain : Bytes) × (generate_message_id (7 ∷ 255 ∷ []) sender
      ≡ 60 ∷ (left ++ 64 ∷ (domain ++ 62 ∷ [])))
    × All IsHex left
    × (length left ≡ 2 + 2)
    × IsSafe domain
generate_message_id-IsSafe_example =
    generate_message_id-IsSafe (7 ∷ 255 ∷ []) sender (omega arith, (omega arith, tt))
