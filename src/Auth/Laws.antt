-- ===== src/Auth/Laws.antt =====
-- auth.go: when credentials are sent, and what is sent.
use gsmail.Prelude.{
  ◌≡◌, ◌≢◌, refl, sym, ap, ◌∙◌, ◌⊎◌, inl, inr, Bool, true, false, not, ◌&&◌, ◌||◌, Option, none,
  some, [], ◌∷◌, ◌++◌, drop, All, if◌then◌else◌,
}
use gsmail.Prelude.Bytes.{Bytes, bytes_eq_sound, codes}
use gsmail.Errors.{Error}
use gsmail.Text.Search.{cut}
use gsmail.Text.Parts.{cut-append}
use gsmail.Auth.{
  ServerInfo, Started, started, not_started, SmtpAuth, is_localhost, auth_start, xoauth2_response,
  xoauth2_client, new_xoauth2_auth,
}

-- A connection with TLS, or to one of the names of the loopback interface.
abbrev pub IsProtected : Option ServerInfo → Type 0
IsProtected none = Unit
IsProtected (some server) =
    (server.tls ≡ true)
    ⊎ (server.name ≡ codes "localhost")
    ⊎ (server.name ≡ codes "127.0.0.1")
    ⊎ (server.name ≡ codes "::1")

any_of_three : (a b c : Bool) → (a || b || c) ≡ true → (a ≡ true) ⊎ (b ≡ true) ⊎ (c ≡ true)
any_of_three true b c h = inl refl
any_of_three false true c h = inr (inl refl)
any_of_three false false c h = inr (inr h)

is_localhost-IsProtected :
    (server : ServerInfo) → is_localhost server.name ≡ true → IsProtected (some server)
unfolding is_localhost
is_localhost-IsProtected server h = elim (any_of_three _ _ _ h) [
  | inl a ↦ inr (inl (bytes_eq_sound server.name _ a))
  | inr r ↦ elim r [
    | inl b ↦ inr (inr (inl (bytes_eq_sound server.name _ b)))
    | inr c ↦ inr (inr (inr (bytes_eq_sound server.name _ c)))
  ]
]

guard_passes :
    (b : Bool) (s : Started) (err : Error) {mechanism ir : Bytes}
    → (if b then not_started err else s) ≡ started mechanism ir
    → (b ≡ false) × (s ≡ started mechanism ir)
guard_passes true s err h = cc
guard_passes false s err h = (refl, h)

tls_or_local :
    (tls allowed local : Bool)
    → allowed ≡ false
    → (not tls && not allowed && not local) ≡ false
    → (tls ≡ true) ⊎ (local ≡ true)
tls_or_local true allowed local h k = inl refl
tls_or_local false true local h k = cc
tls_or_local false false true h k = inr refl
tls_or_local false false false h k = cc

auth_start-IsProtected :
    (a : SmtpAuth) (server : Option ServerInfo) (mechanism ir : Bytes)
    → a.allow_insecure ≡ false
    → auth_start a server ≡ started mechanism ir
    → IsProtected server × (a.client.start ≡ started mechanism ir)
unfolding auth_start
auth_start-IsProtected a none mechanism ir h e = (tt, e)
auth_start-IsProtected a (some server) mechanism ir h e =
    let (safe, passed) = guard_passes _ a.client.start _ e in
    (
      elim (tls_or_local server.tls a.allow_insecure (is_localhost server.name) h safe) [
        | inl tls ↦ inl tls
        | inr local ↦ is_localhost-IsProtected server local
      ],
      passed,
    )

-- A server's reading of the initial response: the text after `user=` and that after `auth=Bearer `,
-- each up to a byte 1.
abbrev pub read_token : Bytes → Option (Bytes × Bytes) → Option (Bytes × Bytes)
read_token username none = none
read_token username (some (token, rest)) = some (username, token)

abbrev pub read_user : Option (Bytes × Bytes) → Option (Bytes × Bytes)
read_user none = none
read_user (some (username, rest)) = read_token username (cut 1 (drop 12 rest))

abbrev pub read_xoauth2 : Bytes → Option (Bytes × Bytes)
read_xoauth2 s = read_user (cut 1 (drop 5 s))

read_xoauth2-response :
    (username token : Bytes)
    → All (λ c. c ≢ 1) username
    → All (λ c. c ≢ 1) token
    → read_xoauth2 (xoauth2_response username token) ≡ some (username, token)
unfolding xoauth2_response
read_xoauth2-response username token h k =
    ap read_user (cut-append 1 username (codes "auth=Bearer " ++ (token ++ 1 ∷ 1 ∷ [])) h)
    ∙ ap (read_token username) (cut-append 1 token (1 ∷ []) k)

abbrev mechanism_of : Started → Bytes
mechanism_of (started mechanism ir) = mechanism
mechanism_of (not_started e) = []

abbrev response_of : Started → Bytes
response_of (started mechanism ir) = ir
response_of (not_started e) = []

-- An authenticator of NewXOAUTH2Auth hands over its initial response, whatever the user name and
-- the token, only where there is no server information, TLS, or a server with one of the three
-- names of the loopback interface; it is that of the mechanism XOAUTH2, with the user name behind
-- `user=` and the token behind `auth=Bearer `, a byte 1 after each, and one at the end.
pub xoauth2-IsProtected :
    (username token : Bytes) (server : Option ServerInfo) (mechanism ir : Bytes)
    → auth_start (new_xoauth2_auth username token false) server ≡ started mechanism ir
    → IsProtected server
      × (mechanism ≡ codes "XOAUTH2")
      × (ir ≡ codes "user=" ++ (username ++ 1 ∷ (codes "auth=Bearer " ++ (token ++ 1 ∷ 1 ∷ []))))
unfolding new_xoauth2_auth xoauth2_client xoauth2_response
xoauth2-IsProtected username token server mechanism ir e =
    let (safe, sent) =
      auth_start-IsProtected (new_xoauth2_auth username token false) server mechanism ir refl e in
    (safe, ap mechanism_of (sym sent), ap response_of (sym sent))

-- Where neither the user name nor the token has a byte 1, the initial response that an
-- authenticator of NewXOAUTH2Auth hands over is read back, each field up to its byte 1, as the user
-- name and the token.
pub xoauth2-reads :
    (username token : Bytes) (server : Option ServerInfo) (mechanism ir : Bytes)
    → All (λ c. c ≢ 1) username
    → All (λ c. c ≢ 1) token
    → auth_start (new_xoauth2_auth username token false) server ≡ started mechanism ir
    → read_xoauth2 ir ≡ some (username, token)
unfolding new_xoauth2_auth xoauth2_client
xoauth2-reads username token server mechanism ir h k e =
    let (safe, sent) =
      auth_start-IsProtected (new_xoauth2_auth username token false) server mechanism ir refl e in
    ap (λ s. read_xoauth2 (response_of s)) (sym sent) ∙ read_xoauth2-response username token h k
