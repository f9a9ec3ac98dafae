-- ===== src/Suppression/Intercept.antt =====
-- suppression.go: SuppressionInterceptorWith.
pub mod Laws
use gsmail.Prelude.{
  ℕ, ◌+◌, Bool, true, false, Option, none, some, List, [], ◌∷◌, ◌++◌, length, ◌==◌, if◌then◌else◌,
}
use gsmail.Prelude.Bytes.{Bytes}
use gsmail.Errors.{
  Error, errorf, sentinel, err_all_recipients_suppressed, non_retryable, non_retryable_error,
}
use gsmail.Email.{Email}

-- What a Suppressor answers for one address.
pub data Answer : Type 0 where
  withheld : Bool → Answer
  lookup_error : Error → Answer

-- The result of filtering one list: what is kept, or the error that ends the send; with it the
-- addresses that OnSuppressed was called with, in order.
pub data Kept : Type 0 where
  kept : List Bytes → List Bytes → Kept
  broken : Error → List Bytes → Kept

abbrev pub keep_one : Bytes → Kept → Kept
keep_one a (kept out dropped) = kept (a ∷ out) dropped
keep_one a (broken e dropped) = broken e dropped

abbrev pub drop_one : Bytes → Kept → Kept
drop_one a (kept out dropped) = kept out (a ∷ dropped)
drop_one a (broken e dropped) = broken e (a ∷ dropped)

-- What a Suppressor answers during one send is the function `ask`; `normalize` is NormalizeAddress
-- and `ignore` is IgnoreErrors.
module _ (normalize : Bytes → Bytes) (ask : Bytes → Answer) (ignore : Bool) where
  abbrev pub kept_by : Bytes → Answer → Kept → Kept
  kept_by addr (lookup_error e) rest = if ignore then keep_one addr rest else broken (errorf e) []
  kept_by addr (withheld true) rest = drop_one addr rest
  kept_by addr (withheld false) rest = keep_one addr rest

  unfoldable pub keep : List Bytes → Kept
  keep [] = kept [] []
  keep (addr ∷ list) = kept_by addr (ask (normalize addr)) (keep list)

  finish : Email → List Bytes → (Email → Option Error) → Option Error × List Bytes
  finish email dropped next =
      if length email.to + length email.cc + length email.bcc == 0
      then (non_retryable (some (sentinel err_all_recipients_suppressed)), dropped)
      else (next email, dropped)

  keep_bcc : Email → List Bytes → Kept → (Email → Option Error) → Option Error × List Bytes
  unfolding finish
  keep_bcc email dropped (broken e d) next = (some e, dropped ++ d)
  keep_bcc email dropped (kept out d) next = finish (record email { bcc = out }) (dropped ++ d) next

  keep_cc : Email → List Bytes → Kept → (Email → Option Error) → Option Error × List Bytes
  unfolding keep_bcc
  keep_cc email dropped (broken e d) next = (some e, dropped ++ d)
  keep_cc email dropped (kept out d) next =
      keep_bcc (record email { cc = out }) (dropped ++ d) (keep email.bcc) next

  keep_to : Email → Kept → (Email → Option Error) → Option Error × List Bytes
  unfolding keep_cc
  keep_to email (broken e d) next = (some e, d)
  keep_to email (kept out d) next = keep_cc (record email { to = out }) d (keep email.cc) next

  -- The error that the send returns, and the addresses that OnSuppressed was called with.
  unfoldable pub suppress : Email → (Email → Option Error) → Option Error × List Bytes
  unfolding keep_to
  suppress email next = keep_to email (keep email.to) next

-- a nil Suppressor lets everything through
unfoldable pub suppression_interceptor :
    (Bytes → Bytes)
    → Option (Bytes → Answer)
    → Bool
    → Email
    → (Email → Option Error)
    → Option Error × List Bytes
unfolding suppress
suppression_interceptor normalize none ignore email next = (next email, [])
suppression_interceptor normalize (some ask) ignore email next =
    suppress normalize ask ignore email next
