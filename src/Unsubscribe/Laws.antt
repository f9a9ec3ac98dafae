-- ===== src/Unsubscribe/Laws.antt =====
-- unsubscribe.go: what the header pair holds.
use gsmail.Prelude.{
  ◌≡◌, ◌≢◌, refl, sym, ◌⊎◌, inl, inr, Bool, true, false, Option, none, some, List, [], ◌∷◌, arith,
  All, All-append, Bool-cases,
}
use gsmail.Prelude.Bytes.{Bytes, bytes_eq, bytes_eq_sound, codes}
use gsmail.Errors.{Error, non_retryable}
use gsmail.Text.Search.{Unicode, to_lower}
use gsmail.Header.{sanitize_header_value}
use gsmail.Header.Sanitize.{IsLegal, sanitize_header_value_iff}
use gsmail.Email.{Email, set_header}
use gsmail.Address.{join_addresses}
use gsmail.Address.Legal.{join_addresses-All}
use gsmail.Unsubscribe.{
  Checked, accepted, refused, Parts, parts, no_parts, target_of, check_legal, with_part,
  check_scheme, check_target, parts_of, build_list_unsubscribe, set_pair, set_one_click_unsubscribe,
  list_unsubscribe, list_unsubscribe_post, list_unsubscribe_post_value,
}

module _ (u : Unicode) (parse_scheme : Bytes → Option Bytes) where
  -- url.Parse finds this scheme, in lower case, in the target
  abbrev pub HasScheme : (target scheme : Bytes) → Type 0
  HasScheme t scheme = (s : Bytes) × (parse_scheme t ≡ some s) × (to_lower u s ≡ scheme)

  abbrev pub IsHttps : Bytes → Type 0
  IsHttps raw = HasScheme (target_of raw) (codes "https")

  -- the schemes that are safe to put in the header
  abbrev pub IsSafe : Bytes → Type 0
  IsSafe raw = IsHttps raw ⊎ HasScheme (target_of raw) (codes "mailto")

  -- one of the targets is https
  abbrev pub HasHttps : List Bytes → Type 0
  HasHttps [] = ⊥
  HasHttps (raw ∷ targets) = IsHttps raw ⊎ HasHttps targets

  -- what the checks of one target say of it
  abbrev Verdict : Bytes → Checked → Type 0
  Verdict t (accepted true) = All IsLegal t × HasScheme t (codes "https")
  Verdict t (accepted false) = All IsLegal t × HasScheme t (codes "mailto")
  Verdict t (refused e) = e ≢ none

  abbrev Sound : List Bytes → Parts → Type 0
  Sound targets (no_parts e) = e ≢ none
  Sound targets (parts ps https) =
      All (All IsLegal) ps × All IsSafe targets × (https ≡ true → HasHttps targets)

  abbrev scheme_name : Bool → Bytes
  scheme_name true = codes "https"
  scheme_name false = codes "mailto"

  accepted-Verdict :
      (t : Bytes) (b : Bool) → All IsLegal t → HasScheme t (scheme_name b) → Verdict t (accepted b)
  accepted-Verdict t true legal scheme = (legal, scheme)
  accepted-Verdict t false legal scheme = (legal, scheme)

  check_legal-Verdict :
      (t : Bytes) (b : Bool) → HasScheme t (scheme_name b) → Verdict t (check_legal t b)
  unfolding check_legal non_retryable
  check_legal-Verdict t b scheme = elim (Bool-cases (bytes_eq t (sanitize_header_value t))) [
    | inl same ↦ rw same (
        accepted-Verdict t b ((sanitize_header_value_iff t).0 (sym (bytes_eq_sound t _ same)))
          scheme)
    | inr odd ↦ rw odd (λ e. cc e)
  ]

  check_scheme-Verdict :
      (t : Bytes) (scheme : Option Bytes)
      → parse_scheme t ≡ scheme
      → Verdict t (check_scheme u parse_scheme t scheme)
  unfolding check_scheme non_retryable
  check_scheme-Verdict t none parsed = λ e. cc e
  check_scheme-Verdict t (some scheme) parsed =
      elim (Bool-cases (bytes_eq (to_lower u scheme) (codes "https"))) [
        | inl https ↦ rw https (
            check_legal-Verdict t true (scheme, parsed, bytes_eq_sound (to_lower u scheme) _ https))
        | inr other ↦ elim (Bool-cases (bytes_eq (to_lower u scheme) (codes "mailto"))) [
          | inl mailto ↦
              rw (other, mailto)
                (check_legal-Verdict t false
                  (scheme, parsed, bytes_eq_sound (to_lower u scheme) _ mailto))
          | inr unsafe ↦ rw (other, unsafe) (λ e. cc e)
        ]
      ]

  check_target-Verdict : (t : Bytes) → Verdict t (check_target u parse_scheme t)
  unfolding check_target non_retryable
  check_target-Verdict [] = λ e. cc e
  check_target-Verdict (c ∷ t) = check_scheme-Verdict (c ∷ t) (parse_scheme (c ∷ t)) refl

  with_part-Sound :
      (raw : Bytes) (targets : List Bytes) (c : Checked) (rest : Parts)
      → Verdict (target_of raw) c
      → Sound targets rest
      → Sound (raw ∷ targets) (with_part (target_of raw) c rest)
  with_part-Sound raw targets (refused e) rest v s = v
  with_part-Sound raw targets (accepted b) (no_parts e) v s = s
  with_part-Sound raw targets (accepted true) (parts ps later) v s = (
    ((ground arith, All-append IsLegal (target_of raw) _ v.0 (ground arith)), s.0),
    (inl v.1, s.1),
    λ e. inl v.1,
  )
  with_part-Sound raw targets (accepted false) (parts ps later) v s = (
    ((ground arith, All-append IsLegal (target_of raw) _ v.0 (ground arith)), s.0),
    (inr v.1, s.1),
    λ e. inr (s.2 e),
  )

  parts_of-Sound : (targets : List Bytes) → Sound targets (parts_of u parse_scheme targets)
  unfolding parts_of
  parts_of-Sound [] = (tt, tt, λ e. cc e)
  parts_of-Sound (raw ∷ targets) =
      with_part-Sound raw targets _ _ (check_target-Verdict (target_of raw))
        (parts_of-Sound targets)

  build-Sound :
      (targets : List Bytes) → Sound targets (build_list_unsubscribe u parse_scheme targets)
  unfolding build_list_unsubscribe non_retryable
  build-Sound [] = λ e. cc e
  build-Sound (t ∷ targets) = parts_of-Sound (t ∷ targets)

  -- the message with the header pair
  abbrev pub paired : Bytes → Email → Email
  paired value e =
      set_header list_unsubscribe_post list_unsubscribe_post_value
        (set_header list_unsubscribe value e)

  abbrev pub Outcome : List Bytes → Email → Option Error × Email → Type 0
  Outcome targets e out =
      ((out.0 ≢ none) × (out.1 ≡ e))
      ⊎ ((out.0 ≡ none)
          × HasHttps targets
          × All IsSafe targets
          × ((value : Bytes) × All IsLegal value × (out.1 ≡ paired value e)))

  set_pair-Outcome :
      (targets : List Bytes) (e : Email) (ps : Parts)
      → Sound targets ps
      → Outcome targets e (set_pair u parse_scheme e ps)
  unfolding set_pair non_retryable
  set_pair-Outcome targets e (no_parts err) s = inl (s, refl)
  set_pair-Outcome targets e (parts ps false) s = inl (λ p. cc p, refl)
  set_pair-Outcome targets e (parts ps true) s = inr (
    refl,
    s.2 refl,
    s.1,
    (join_addresses ps, join_addresses-All IsLegal ps (ground arith) (ground arith) s.0, refl),
  )

  -- SetOneClickUnsubscribe fails and leaves the message as it was, or both headers are set,
  -- List-Unsubscribe to a value without an illegal character: then url.Parse finds the scheme https
  -- in one of the trimmed targets, and https or mailto in each of them, in whatever case.
  pub set_one_click_unsubscribe-Outcome :
      (targets : List Bytes) (e : Email)
      → Outcome targets e (set_one_click_unsubscribe u parse_scheme targets e)
  unfolding set_one_click_unsubscribe
  set_one_click_unsubscribe-Outcome targets e =
      set_pair-Outcome targets e (build_list_unsubscribe u parse_scheme targets)
        (build-Sound targets)
