-- ===== src/Auth.antt =====
-- auth.go: authentication with SMTP servers. A SASL client of a third party is a parameter, as the answer of
-- its Start and its Next.
mod Tests
pub mod Laws
use gsmail.Prelude.{
  Bool, true, false, not, ◌&&◌, ◌||◌, Option, none, some, List, [], ◌∷◌, ◌++◌, if◌then◌else◌,
}
use gsmail.Prelude.Bytes.{Bytes, bytes_eq, codes}
use gsmail.Errors.{Error, sentinel, err_insecure_auth}

pub record ServerInfo : Type 0 where
  pub name : Bytes
  pub tls : Bool

-- The mechanism and the initial response, or the response to a challenge; or an error.
pub data Started : Type 0 where
  started : Bytes → Bytes → Started
  not_started : Error → Started

pub data Response : Type 0 where
  response : Bytes → Response
  no_response : Error → Response

pub record SaslClient : Type 0 where
  pub start : Started
  pub next : Bytes → Response

pub record SmtpAuth : Type 0 where
  pub client : SaslClient
  pub allow_insecure : Bool

unfoldable pub allowing_insecure : SmtpAuth → SmtpAuth
allowing_insecure a = record a { allow_insecure = true }

unfoldable pub is_localhost : Bytes → Bool
is_localhost name =
    bytes_eq name (codes "localhost")
    || bytes_eq name (codes "127.0.0.1")
    || bytes_eq name (codes "::1")

-- a missing server is a nil *smtp.ServerInfo
unfoldable pub auth_start : SmtpAuth → Option ServerInfo → Started
unfolding is_localhost
auth_start a none = a.client.start
auth_start a (some server) =
    if not server.tls && not a.allow_insecure && not (is_localhost server.name)
    then not_started (sentinel err_insecure_auth)
    else a.client.start

unfoldable pub auth_next : SmtpAuth → Bytes → Bool → Response
auth_next a from_server more = if more then a.client.next from_server else response []

-- `user=%s\x01auth=Bearer %s\x01\x01`
unfoldable pub xoauth2_response : Bytes → Bytes → Bytes
xoauth2_response username token =
    codes "user=" ++ (username ++ (1 ∷ (codes "auth=Bearer " ++ (token ++ 1 ∷ 1 ∷ []))))

unfoldable pub xoauth2_client : Bytes → Bytes → SaslClient
unfolding xoauth2_response
xoauth2_client username token = record {
  start = started (codes "XOAUTH2") (xoauth2_response username token);
  next = λ challenge. response [];
}

unfoldable pub new_xoauth2_auth : Bytes → Bytes → Bool → SmtpAuth
unfolding xoauth2_client
new_xoauth2_auth username token insecure = record {
  client = xoauth2_client username token;
  allow_insecure = insecure;
}

-- `bearer` is sasl.NewOAuthBearerClient
unfoldable pub new_oauth_bearer_auth :
    (Bytes → Bytes → SaslClient) → Bytes → Bytes → Bool → SmtpAuth
new_oauth_bearer_auth bearer username token insecure = record {
  client = bearer username token;
  allow_insecure = insecure;
}
