-- ===== src/Health/Collect.antt =====
-- health.go: CheckDomainHealth, whose checks run at the same time and hand over their results in any order.
use gsmail.Prelude.{ℕ, Bool, true, false, Option, none, some, List, [], ◌∷◌, map, if◌then◌else◌}
use gsmail.Prelude.Bytes.{Bytes, bytes_eq, codes}
use gsmail.Errors.{Error, text}
use gsmail.Text.Search.{Unicode}
use gsmail.Health.{
  HealthResult, Resolver, empty_result, check_mx, check_spf, check_dmarc, check_dkim,
}

-- a check, which is what the goroutine of it hands over: `typ`, and the selector
pub data Check : Type 0 where
  mx spf dmarc : Check
  dkim : Bytes → Check

pub record DomainHealth : Type 0 where
  pub domain : Bytes
  pub spf_health : HealthResult
  pub dmarc_health : HealthResult
  pub dkim_health : List (Bytes × HealthResult)
  pub mx_health : HealthResult

-- m[selector] and m[selector] = res
unfoldable pub result_of : Bytes → List (Bytes × HealthResult) → Option HealthResult
result_of s [] = none
result_of s ((k, r) ∷ m) = if bytes_eq k s then some r else result_of s m

unfoldable pub put_result :
    Bytes → HealthResult → List (Bytes × HealthResult) → List (Bytes × HealthResult)
put_result s r [] = (s, r) ∷ []
put_result s r ((k, q) ∷ m) =
    let rest = put_result s r m in if bytes_eq k s then (k, r) ∷ m else (k, q) ∷ rest

abbrev pub no_health : Bytes → DomainHealth
no_health domain = record {
  domain = domain;
  spf_health = empty_result;
  dmarc_health = empty_result;
  dkim_health = [];
  mx_health = empty_result;
}

-- the checks that are started
abbrev pub checks : List Bytes → List Check
checks selectors = mx ∷ spf ∷ dmarc ∷ map dkim selectors

-- One element, and the others.
pub data Picked : Check → List Check → List Check → Type 0 where
  here : (c : Check) (cs : List Check) → Picked c (c ∷ cs) cs
  there : (c d : Check) (cs ds : List Check) → Picked c cs ds → Picked c (d ∷ cs) (d ∷ ds)

-- The checks that have not ended, what is collected, and whether the context is done.
pub record Collecting : Type 0 where
  pub pending : List Check
  pub health : DomainHealth
  pub canceled : Bool

module _ (u : Unicode) (dns : Resolver) (ctx_err : Error) where
  -- the switch over `typ`, with the result of the check
  abbrev pub collect : Check → DomainHealth → DomainHealth
  collect mx h = record h { mx_health = check_mx u dns h.domain }
  collect spf h = record h { spf_health = check_spf u dns h.domain }
  collect dmarc h = record h { dmarc_health = check_dmarc u dns h.domain }
  collect (dkim s) h = record h {
    dkim_health = put_result s (check_dkim dns h.domain s) h.dkim_health;
  }

  -- A result is received, or dropped once the context is done, which it may be at any time.
  pub data Step : Collecting → Collecting → Type 0 where
    receive :
        (c : Check) (cs ds : List Check) (h : DomainHealth) (done : Bool)
        → Picked c cs ds
        → Step
            (record { pending = cs; health = h; canceled = done })
            (record { pending = ds; health = collect c h; canceled = done })
    drop_result :
        (c : Check) (cs ds : List Check) (h : DomainHealth)
        → Picked c cs ds
        → Step
            (record { pending = cs; health = h; canceled = true })
            (record { pending = ds; health = h; canceled = true })
    cancel :
        (cs : List Check) (h : DomainHealth)
        → Step
            (record { pending = cs; health = h; canceled = false })
            (record { pending = cs; health = h; canceled = true })

  pub data Run : Collecting → Collecting → Type 0 where
    stay : (s : Collecting) → Run s s
    step : (s t r : Collecting) → Step s t → Run t r → Run s r

  -- The loop ends by ctx.Done(), or by the channel, which is closed once every check has ended.
  pub data Returns : Collecting → DomainHealth → Option Error → Type 0 where
    done :
        (cs : List Check) (h : DomainHealth)
        → Returns (record { pending = cs; health = h; canceled = true }) h (some ctx_err)
    closed :
        (h : DomainHealth) (done : Bool)
        → Returns (record { pending = []; health = h; canceled = done }) h none

  abbrev pub start : Bytes → List Bytes → Collecting
  start domain selectors = record {
    pending = checks selectors;
    health = no_health domain;
    canceled = false;
  }

  -- A call of CheckDomainHealth may return this.
  pub data Outcome : Bytes → List Bytes → DomainHealth → Option Error → Type 0 where
    no_domain :
        (selectors : List Bytes)
        → Outcome [] selectors (no_health []) (some (text (codes "domain is required")))
    collected :
        (c : ℕ) (domain : Bytes) (selectors : List Bytes) (s : Collecting) (h : DomainHealth)
        (e : Option Error)
        → Run (start (c ∷ domain) selectors) s
        → Returns s h e
        → Outcome (c ∷ domain) selectors h e
