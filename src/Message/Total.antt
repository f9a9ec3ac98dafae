-- ===== src/Message/Total.antt =====
-- utils.go: which messages are rendered, and the order of the caller's headers.
use mathlib.Core.Path.{subst}
use gsmail.Prelude.{
  ◌≡◌, refl, sym, ap, ◌∙◌, ◌↔◌, Bool, true, ◌||◌, List, [], ◌∷◌, All, Bool-cases, inl, inr,
}
use gsmail.Prelude.Bytes.{Bytes}
use gsmail.Email.{Email}
use gsmail.Header.{is_valid_header_name}
use gsmail.Identity.{field}
use gsmail.Headers.{is_reserved, sorted_header_names, value_of}
use gsmail.Headers.Order.{SameMap, sorted_header_names-SameMap, look-SameMap}
use gsmail.Message.{
  Env, CallerFields, legal_fields, bad_name, Built, built, not_built, also, written_before,
  caller_headers, with_caller_headers, build_message, basic_headers, generated_headers, finish,
  simple_headers, first_part, later_parts, main_body, render_message,
}
use gsmail.Message.Injection.{caller_fields, finish_lem}

abbrev pub IsBuilt : Built → Type 0
IsBuilt (built out) = Unit
IsBuilt (not_built e) = ⊥

abbrev ArePrepared : CallerFields → Type 0
ArePrepared (legal_fields fields) = Unit
ArePrepared (bad_name e) = ⊥

module _ (env : Env) where
  -- A name that is skipped, or legal.
  abbrev pub accepted : Bytes → Bool
  accepted name =
      is_reserved env.unicode name || written_before env [] name || is_valid_header_name name

  also_iff :
      (fields : List (Bytes × Bytes)) (rest : CallerFields)
      → ArePrepared (also fields rest) ↔ ArePrepared rest
  also_iff fields (legal_fields rest) = (λ h. h, λ h. h)
  also_iff fields (bad_name e) = (λ h. h, λ h. h)

  caller_headers_iff :
      (look : Bytes → Bytes) (names : List Bytes)
      → ArePrepared (caller_headers env [] look names) ↔ All (λ name. accepted name ≡ true) names
  unfolding caller_headers
  caller_headers_iff look [] = (λ h. tt, λ h. tt)
  caller_headers_iff look (name ∷ names) =
      let ih = caller_headers_iff look names in
      elim (Bool-cases (is_reserved env.unicode name)) [
        | inl reserved ↦ rw reserved (λ h. (refl, ih.0 h), λ h. ih.1 h.1)
        | inr free ↦ elim (Bool-cases (written_before env [] name)) [
          | inl twice ↦ rw (free, twice) (λ h. (refl, ih.0 h), λ h. ih.1 h.1)
          | inr once ↦ elim (Bool-cases (is_valid_header_name name)) [
            | inl valid ↦
                rw (free, once, valid)
                  (λ h. (refl, ih.0 ((also_iff _ _).0 h)), λ h. (also_iff _ _).1 (ih.1 h.1))
            | inr bad ↦ rw (free, once, bad) (λ h. absurd h, λ h. cc)
          ]
        ]
      ]

  with_caller_headers_iff :
      (email : Email) (c : CallerFields)
      → IsBuilt (with_caller_headers env [] email c) ↔ ArePrepared c
  with_caller_headers_iff email (legal_fields fields) =
      (λ h. tt, λ h. subst IsBuilt (sym (finish_lem env email _)) tt)
  with_caller_headers_iff email (bad_name e) = (λ h. h, λ h. h)

  -- RenderMessage makes a message exactly where each name of the caller's headers is reserved, one
  -- of the trace fields, Date or Message-ID, or a legal name.
  pub render_message_iff :
      (email : Email)
      → IsBuilt (render_message env email)
        ↔ All (λ name. accepted name ≡ true) (sorted_header_names email.headers)
  unfolding render_message build_message
  render_message_iff email =
      let built_iff = with_caller_headers_iff email (caller_fields env email) in
      let names_iff = caller_headers_iff _ (sorted_header_names email.headers) in
      (λ h. names_iff.0 (built_iff.0 h), λ h. built_iff.1 (names_iff.1 h))

  -- the rest of the message does not depend on the caller's headers
  other_headers :
      (prefix : Bytes) (email : Email) (h k : List (Bytes × Bytes)) (c : CallerFields)
      → with_caller_headers env prefix (record email { headers = h }) c
        ≡ with_caller_headers env prefix (record email { headers = k }) c
  unfolding basic_headers generated_headers finish simple_headers first_part later_parts main_body
  other_headers prefix email h k (legal_fields fields) = refl
  other_headers prefix email h k (bad_name e) = refl

  -- The message that buildMessage writes does not depend on the order in which the entries of the
  -- header map are visited.
  pub build_message-SameMap :
      (prefix : Bytes) (email : Email) (h k : List (Bytes × Bytes))
      → SameMap h k
      → build_message env prefix (record email { headers = h })
        ≡ build_message env prefix (record email { headers = k })
  unfolding build_message
  build_message-SameMap prefix email h k same =
      let caller =
        λ (look : Bytes → Bytes) (names : List Bytes). caller_headers env prefix look names in
      ap
        (λ look.
          with_caller_headers env prefix (record email { headers = h })
            (caller look (sorted_header_names h)))
        (look-SameMap h k same)
      ∙ ap
          (λ names.
            with_caller_headers env prefix (record email { headers = h })
              (caller (λ name. value_of (field name k)) names))
          (sorted_header_names-SameMap h k same)
      ∙ other_headers prefix email h k
          (caller (λ name. value_of (field name k)) (sorted_header_names k))
