-- ===== src/Message/Once.antt =====
-- utils.go: no field of the header of a message is written twice.
use mathlib.Core.Path.{subst}
use gsmail.Prelude.{ℕ, ◌≤◌, ◌≡◌, refl, sym, some, List, All, arith}
use gsmail.Prelude.Bytes.{Bytes, bytes_eq, codes}
use gsmail.Text.Search.{to_lower}
use gsmail.Email.{Email}
use gsmail.Identity.{field}
use gsmail.Headers.{sorted_header_names, value_of}
use gsmail.Message.{Env, render_message}
use gsmail.Message.Fields.{LegalEnv, AllFields}
use gsmail.Message.Injection.{sent_headers, read_built, render_message-Sent}
use gsmail.Text.Utf8.{runes_after, encode_rune}
use gsmail.Message.Names.{
  count_named, single_names, IsFree, Avoids, count, written_names, sent_count, reserved_avoids,
  caller_headers-IsFree,
}

module _ (env : Env) where
  written_once : All (λ n. written_names env n ≡ 1) single_names
  unfolding written_names to_lower bytes_eq runes_after encode_rune
  written_once = (refl, (refl, (refl, (refl, (refl, (refl, (refl, (refl, (refl, (refl, tt))))))))))

  bcc_never : written_names env (codes "bcc") ≡ 0
  unfolding written_names to_lower bytes_eq runes_after encode_rune
  bcc_never = refl

  module _ (email : Email) (caller : List (Bytes × Bytes)) (free : All (IsFree env) caller) where
    at_most :
        (n : Bytes) (k : ℕ)
        → Avoids env n
        → written_names env n ≡ k
        → count env n (sent_headers env email caller) ≤ k
    at_most n k avoid e = omega (arith, sent_count env n email caller avoid free, e)

    sent_once : All (λ n. count env n (sent_headers env email caller) ≤ 1) single_names
    sent_once =
        let w = written_once in
        let r = reserved_avoids env in
        (
          at_most _ 1 (λ f h. (r f h).0) w.0,
          (
            at_most _ 1 (λ f h. (r f h).1.0) w.1.0,
            (
              at_most _ 1 (λ f h. (r f h).1.1.0) w.1.1.0,
              (
                at_most _ 1 (λ f h. (r f h).1.1.1.1.0) w.1.1.1.0,
                (
                  at_most _ 1 (λ f h. (r f h).1.1.1.1.1.0) w.1.1.1.1.0,
                  (
                    at_most _ 1 (λ f h. (r f h).1.1.1.1.1.1.0) w.1.1.1.1.1.0,
                    (
                      at_most _ 1 (λ f h. h.1) w.1.1.1.1.1.1.0,
                      (
                        at_most _ 1 (λ f h. h.2) w.1.1.1.1.1.1.1.0,
                        (
                          at_most _ 1 (λ f h. (r f h).1.1.1.1.1.1.1.0) w.1.1.1.1.1.1.1.1.0,
                          (
                            at_most _ 1 (λ f h. (r f h).1.1.1.1.1.1.1.1.0) w.1.1.1.1.1.1.1.1.1.0,
                            tt,
                          ),
                        ),
                      ),
                    ),
                  ),
                ),
              ),
            ),
          ),
        )

    sent_bcc : count env (codes "bcc") (sent_headers env email caller) ≡ 0
    sent_bcc =
        omega (arith, at_most (codes "bcc") 0 (λ f h. (reserved_avoids env f h).1.1.1.0) bcc_never)

  abbrev pub HasOnce : List (Bytes × Bytes) → Type 0
  HasOnce fields =
      All (λ n. count_named env.unicode n fields ≤ 1) single_names
      × (count_named env.unicode (codes "bcc") fields ≡ 0)

  sent_headers-HasOnce :
      (email : Email) (caller : List (Bytes × Bytes))
      → All (IsFree env) caller
      → HasOnce (sent_headers env email caller)
  unfolding count
  sent_headers-HasOnce email caller free = (sent_once email caller free, sent_bcc email caller free)

  -- What a reader finds in the header of a rendered message, where the standard library brings no
  -- control character but the tab into a text that has none and the date and the boundary are
  -- printable, has none of From, To, Cc, Reply-To, Subject, MIME-Version, Date, Message-ID,
  -- Content-Type and Content-Transfer-Encoding twice, in any spelling, and no Bcc.
  pub render_message-once :
      (legal : LegalEnv env) (email : Email) (fields : List (Bytes × Bytes)) (body : Bytes)
      → read_built (render_message env email) ≡ some (fields, body)
      → HasOnce fields
  render_message-once legal email fields body r =
      let (caller, e, same, whole) = render_message-Sent env legal email fields body r in
      let free = subst (AllFields (IsFree env)) e (
        caller_headers-IsFree env (λ name. value_of (field name email.headers))
          (sorted_header_names email.headers)) in
      subst HasOnce (sym same) (sent_headers-HasOnce email caller free)
