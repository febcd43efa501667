-- ===== src/Api/Auth.antt =====
-- auth/auth.go and auth/token.go, with the HTTP errors of common/rest/error.go. The look-up of a
-- token's user (auth/user.go) asks the cluster and is a parameter.
pub mod Laws
use che_machine_exec.Common.{
  ℕ, Text, codes, text_eq, is_empty, trim_prefix, Bool, not, [], Result, ok, err, ◌>>=◌,
  if◌then◌else◌,
}

-- `HttpError`.
pub record HttpError : Type 0 where
  pub code : ℕ
  pub err_msg : Text

-- The configuration, and the cluster's answer for a token: a user's ID or an error.
pub record AuthConfig : Type 0 where
  pub use_bearer_token : Bool
  pub authenticated_user_id : Text
  pub get_current_user_id : Text → Result Text Text

-- The headers of a request; a missing one is empty.
abbrev pub Headers : Type 0
Headers = Text → Text

unfoldable pub extract_token : Headers → Result HttpError Text
unfolding trim_prefix is_empty
extract_token header =
    if not (is_empty (header (codes "X-Access-Token")))
    then ok (trim_prefix (header (codes "X-Access-Token")) (codes "Bearer "))
    else if not (is_empty (header (codes "X-Forwarded-Access-Token")))
    then ok (header (codes "X-Forwarded-Access-Token"))
    else err (record { code = 401; err_msg = codes "authorization header is missing" })

-- The checks on the user of a token.
unfoldable pub authorize : AuthConfig → Text → Result HttpError Text
unfolding text_eq
authorize c token = elim (c.get_current_user_id token) [
  | err e ↦ err (record { code = 500; err_msg = codes "unable to verify user with provided token" })
  | ok user_id ↦
      if not (text_eq user_id c.authenticated_user_id)
      then err
          (record { code = 403; err_msg = codes "the current user is not authorized to use API" })
      else ok token
]

unfoldable pub authenticate : AuthConfig → Headers → Result HttpError Text
unfolding extract_token authorize
authenticate c header = do token ← extract_token header; authorize c token

-- The beginning of each handler: no token is needed when authentication is off.
unfoldable pub token_of : AuthConfig → Headers → Result HttpError Text
unfolding authenticate
token_of c header = if c.use_bearer_token then authenticate c header else ok []
