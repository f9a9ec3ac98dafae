-- ===== src/Health/Tests.antt =====
-- health.go: the theorems on the checks at a concrete zone.
use gsmail.Prelude.{◌≡◌, ◌↔◌, refl, true, false, Option, none, [], ◌∷◌, ◌++◌, All, ◌==◌}
use gsmail.Prelude.Bytes.{Bytes, bytes_eq, codes}
use gsmail.Text.Utf8.{runes_after, encode_rune}
use gsmail.Text.Search.{Unicode, trim_space, trim_start, space_width, space_width_back, cut, split}
use gsmail.Errors.{Error, canceled}
use gsmail.Email.{assign}
use gsmail.Identity.{field}
use gsmail.Health.{
  answer, Resolver, public_key, check_dkim, check_dkim_key, record_tags, tags_from,
  dkim_published_key, unquoted,
}
use gsmail.Health.Checks.{HasKey, Publishes, check_dkim_iff, check_dkim_key-Publishes}
use gsmail.Health.Collect.{
  Check, mx, spf, dmarc, DomainHealth, no_health, checks, here, there, collect, receive, Run, stay,
  step, closed, start, Outcome,
}
use gsmail.Health.Order.{Has, collect_complete, outcome-incomplete}

abbrev ascii : Unicode
ascii = record { lower = λ r. r; upper = λ r. r; same_fold = λ r t. r == t }

-- every TXT record is a DKIM record
abbrev zone : Resolver
zone = record {
  lookup_mx = λ d. answer (record { host = codes "mail.x.io"; pref = 10 } ∷ []);
  lookup_txt = λ d. answer (codes "k=rsa; p=QUJD=" ∷ []);
}

abbrev domain : Bytes
domain = codes "x.io"

check_dkim_iff_example : ((check_dkim zone domain (codes "s")).valid ≡ true) ↔ (
    (entry : Bytes) × HasKey
      (zone.lookup_txt (codes "s" ++ (codes "._domainkey." ++ domain)))
      entry)
check_dkim_iff_example = check_dkim_iff zone domain b's' []

matching : (check_dkim_key zone domain (codes "s") (public_key (codes "QUJD="))).valid ≡ true
unfolding check_dkim_key record_tags tags_from dkim_published_key unquoted cut split field assign
    trim_space trim_start space_width space_width_back bytes_eq runes_after encode_rune
matching = refl

check_dkim_key-Publishes_example :
    Publishes (check_dkim zone domain (codes "s")) (public_key (codes "QUJD="))
check_dkim_key-Publishes_example =
    check_dkim_key-Publishes zone domain b's' [] (public_key (codes "QUJD=")) matching

-- a run in which the results come in the order DMARC, MX, SPF
abbrev after : Check → DomainHealth → DomainHealth
after c h = collect ascii zone canceled c h

abbrev whole : DomainHealth
whole = after spf (after mx (after dmarc (no_health domain)))

some-Run :
    Run ascii zone canceled
      (start ascii zone canceled domain [])
      (record { pending = []; health = whole; canceled = false })
some-Run =
    step _ _ _ (receive dmarc _ (mx ∷ spf ∷ []) _ false (there _ _ _ _ (there _ _ _ _ (here _ _))))
      (step _ _ _ (receive mx _ (spf ∷ []) _ false (here _ _))
        (step _ _ _ (receive spf _ [] _ false (here _ _)) (stay _)))

collect_complete_example :
    ◌≡◌ {A = Option Error} none none × All (Has ascii zone canceled domain whole) (checks [])
collect_complete_example =
    collect_complete ascii zone canceled domain [] _ whole none some-Run refl (closed whole false)

outcome-incomplete_example : Outcome ascii zone canceled domain [] (no_health domain) none
outcome-incomplete_example = outcome-incomplete ascii zone canceled b'x' (codes ".io") []
