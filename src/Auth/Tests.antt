-- ===== src/Auth/Tests.antt =====
-- auth.go: the theorem on credentials at a concrete server.
use gsmail.Prelude.{◌≡◌, refl, true, false, some, [], ◌∷◌, ◌++◌, arith}
use gsmail.Prelude.Bytes.{codes}
use gsmail.Auth.{
  ServerInfo, started, auth_start, new_xoauth2_auth, xoauth2_client, xoauth2_response,
}
use gsmail.Auth.Laws.{IsProtected, read_xoauth2, xoauth2-IsProtected, xoauth2-reads}

abbrev server : ServerInfo
server = record { name = codes "smtp.x.io"; tls = true }

xoauth2_started :
    auth_start (new_xoauth2_auth (codes "a@x.io") (codes "ya29.t") false) (some server)
    ≡ started (codes "XOAUTH2") (xoauth2_response (codes "a@x.io") (codes "ya29.t"))
unfolding auth_start new_xoauth2_auth xoauth2_client
xoauth2_started = refl

xoauth2-IsProtected_example :
    IsProtected (some server)
    × (codes "XOAUTH2" ≡ codes "XOAUTH2")
    × (xoauth2_response (codes "a@x.io") (codes "ya29.t")
        ≡ codes "user="
          ++ (codes "a@x.io" ++ 1 ∷ (codes "auth=Bearer " ++ (codes "ya29.t" ++ 1 ∷ 1 ∷ []))))
xoauth2-IsProtected_example =
    xoauth2-IsProtected (codes "a@x.io") (codes "ya29.t") (some server) (codes "XOAUTH2") _
      xoauth2_started

xoauth2-reads_example :
    read_xoauth2 (xoauth2_response (codes "a@x.io") (codes "ya29.t"))
    ≡ some (codes "a@x.io", codes "ya29.t")
xoauth2-reads_example =
    xoauth2-reads (codes "a@x.io") (codes "ya29.t") (some server) (codes "XOAUTH2") _ (ground arith)
      (ground arith) xoauth2_started
