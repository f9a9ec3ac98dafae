-- ===== src/Errors.antt =====
-- provider.go and httperror.go: error values, their chains, and the classification that Retry uses.
mod Tests
pub mod Laws
use gsmail.Prelude.{
  ℕ, Bool, true, false, not, ◌||◌, Option, none, some, List, [], ◌∷◌, ltb, leb, ◌==◌, if◌then◌else◌,
}
use gsmail.Prelude.Int.{ℤ, pos, ltb_ℤ, leb_ℤ}
use gsmail.Prelude.Bytes.{Bytes}

-- The error variables of the package that the model tells apart.
pub data Sentinel : Type 0 where
  err_non_retryable err_invalid_limit err_envelope_unsupported : Sentinel
  err_no_senders err_sender_stopped err_queue_full : Sentinel
  err_pool_closed err_pool_full err_all_recipients_suppressed : Sentinel
  err_insecure_auth err_illegal_address err_part_too_large err_too_deeply_nested : Sentinel
  err_conflicting_content_type err_signature_missing err_signature_invalid : Sentinel
  err_signature_expired err_signing_key_missing : Sentinel
  err_no_unsubscribe_target err_unsafe_unsubscribe_scheme err_no_https_unsubscribe : Sentinel
  err_invalid_email_format err_disposable_email err_no_mx_records : Sentinel

pub record HttpError : Type 0 where
  pub provider : Bytes
  pub status_code : ℕ
  pub body : Bytes
  pub delay : ℤ

-- An error of another package: its identity, and what its Retryable and RetryAfter methods return
-- where its type has them.
pub record Foreign : Type 0 where
  pub id : ℕ
  pub retryable : Option Bool
  pub delay : Option ℤ

-- An error value with what it wraps. `text` is errors.New or fmt.Errorf without %w, `errorf` is
-- fmt.Errorf with %w, `reply` is a *textproto.Error with its code, `joined` is errors.Join.
mutual
  pub data Error : Type 0 where
    canceled deadline_exceeded : Error
    sentinel : Sentinel → Error
    text : Bytes → Error
    foreign : Foreign → Error
    http_error : HttpError → Error
    reply : ℕ → Error
    errorf : Error → Error
    non_retryable_error : Error → Error
    joined : Errors → Error

  pub data Errors : Type 0 where
    nil : Errors
    cons : Error → Errors → Errors

abbrev pub or_else {ℓ} : {A : Type ℓ} → Option A → Option A → Option A
or_else (some a) b = some a
or_else none b = b

-- errors.As: what the first error of the tree, in preorder, offers.
unfoldable mutual
  pub errors_as {ℓ} : {A : Type ℓ} → (Error → Option A) → Error → Option A
  errors_as f (errorf e) = or_else (f (errorf e)) (errors_as f e)
  errors_as f (non_retryable_error e) = or_else (f (non_retryable_error e)) (errors_as f e)
  errors_as f (joined es) = or_else (f (joined es)) (errors_as_list f es)
  errors_as f e = f e

  pub errors_as_list {ℓ} : {A : Type ℓ} → (Error → Option A) → Errors → Option A
  errors_as_list f nil = none
  errors_as_list f (cons e es) = or_else (errors_as f e) (errors_as_list f es)

abbrev pub is_some {ℓ} : {A : Type ℓ} → Option A → Bool
is_some (some a) = true
is_some none = false

-- errors.Is: some error of the tree is the target, or says so by its Is method.
abbrev pub when : Bool → Option (Unit {0})
when true = some tt
when false = none

unfoldable pub errors_is : (Error → Bool) → Error → Bool
errors_is f e = is_some (errors_as (λ x. when (f x)) e)

abbrev pub is_canceled : Error → Bool
is_canceled canceled = true
is_canceled _ = false

abbrev pub is_deadline_exceeded : Error → Bool
is_deadline_exceeded deadline_exceeded = true
is_deadline_exceeded _ = false

-- `==` against ErrNonRetryable, and nonRetryableError.Is
abbrev pub is_err_non_retryable : Error → Bool
is_err_non_retryable (sentinel err_non_retryable) = true
is_err_non_retryable (non_retryable_error e) = true
is_err_non_retryable _ = false

-- HTTPError.Retryable
unfoldable pub http_retryable : HttpError → Bool
http_retryable e = e.status_code == 408 || e.status_code == 429 || leb 500 e.status_code

-- the errors with a Retryable method, and its result
abbrev pub retryable_node : Error → Option Bool
retryable_node (http_error h) = some (http_retryable h)
retryable_node (non_retryable_error e) = some false
retryable_node (foreign x) = x.retryable
retryable_node _ = none

-- the errors with a RetryAfter method, and its result
abbrev pub retry_after_node : Error → Option ℤ
retry_after_node (http_error h) = some h.delay
retry_after_node (foreign x) = x.delay
retry_after_node _ = none

-- nil stays nil
unfoldable pub non_retryable : Option Error → Option Error
non_retryable none = none
non_retryable (some e) = some (non_retryable_error e)

abbrev pub or_default : Bool → Option Bool → Bool
or_default d none = d
or_default d (some b) = b

unfoldable pub is_retryable : Option Error → Bool
is_retryable none = false
is_retryable (some e) =
    if errors_is is_canceled e || errors_is is_deadline_exceeded e
    then false
    else or_default (not (errors_is is_err_non_retryable e)) (errors_as retryable_node e)

abbrev pub positive : Option ℤ → Option ℤ
positive none = none
positive (some d) = if ltb_ℤ (pos 0) d then some d else none

-- The server-requested delay; `none` is the result (0, false).
unfoldable pub retry_after : Error → Option ℤ
retry_after e = positive (errors_as retry_after_node e)

-- errors.Join drops nil errors, and is nil where nothing is left.
unfoldable pub join_list : List (Option Error) → Errors
join_list [] = nil
join_list (none ∷ es) = join_list es
join_list (some e ∷ es) = cons e (join_list es)

abbrev pub joined? : Errors → Option Error
joined? nil = none
joined? (cons e es) = some (joined (cons e es))

unfoldable pub errors_join : List (Option Error) → Option Error
unfolding join_list
errors_join es = joined? (join_list es)

-- CheckLimit
unfoldable pub check_limit : ℤ → Option Error
unfolding non_retryable
check_limit limit =
    if leb_ℤ limit (pos 0) then non_retryable (some (errorf (sentinel err_invalid_limit))) else none

-- RejectEnvelope, on the envelope of the message
unfoldable pub reject_envelope : List Bytes → Option Error
unfolding non_retryable
reject_envelope [] = none
reject_envelope (a ∷ envelope) = non_retryable (some (errorf (sentinel err_envelope_unsupported)))
