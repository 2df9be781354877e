-- ===== src/Sessions.antt =====
-- internal/httpserver/tokenhandler/token.go and utils.go: logging in, refreshing and logging out.
-- A handler answers with the body of its 200 or with the status of its refusal. The request body is
-- none where its JSON does not decode; the libraries for JWT, random bytes and SHA-256 are fields of
-- `Issuer`.
pub mod Rotation
use media_hub_oss.Prelude.{
  ℕ, Bool, true, false, if◌then◌else◌, Option, none, some, Result, ok, err, Error,
}
use media_hub_oss.Prelude.Text.{Text, is_empty}
use media_hub_oss.Access.Accounts.{User}
use media_hub_oss.Access.Auth.{Outside, validate_credentials}
use media_hub_oss.Repository.Tokens.{
  Tokens, TokenEnv, store_refresh_token, validate_refresh_token, delete_refresh_token,
}
use media_hub_oss.Users.Replies.{Reply, refused, replied}

pub record Issuer : Type 0 where
  -- the access token of a user, with its claims on the time
  pub sign : Text → Result Text
  pub random_token : Result Text
  pub sha256_hex : Text → Text
  pub refresh_duration : ℕ

-- The driver at each statement of a request.
pub record Calls : Type 0 where
  pub validating : TokenEnv
  pub deleting : TokenEnv
  pub storing : TokenEnv

pub record TokenResponse : Type 0 where
  pub access_token : Text
  pub refresh_token : Text

unfoldable pub hash_token : Issuer → Text → Text
hash_token i token = i.sha256_hex token

abbrev pub stored_pair : Text → Text → Result (Unit {0}) × Tokens → Result TokenResponse × Tokens
stored_pair access refresh (err e, ts) = (err e, ts)
stored_pair access refresh (ok done, ts) =
    (ok (record { access_token = access; refresh_token = refresh }), ts)

abbrev pub refresh_pair :
    Issuer → TokenEnv → Text → Text → Result Text → Tokens → Result TokenResponse × Tokens
refresh_pair i env user_id access (err e) ts = (err e, ts)
refresh_pair i env user_id access (ok refresh) ts =
    stored_pair access refresh
      (store_refresh_token env user_id (hash_token i refresh) i.refresh_duration ts)

abbrev pub signed_pair :
    Issuer → TokenEnv → Text → Result Text → Tokens → Result TokenResponse × Tokens
signed_pair i env user_id (err e) ts = (err e, ts)
signed_pair i env user_id (ok access) ts = refresh_pair i env user_id access i.random_token ts

unfoldable pub generate_tokens : Issuer → TokenEnv → Text → Tokens → Result TokenResponse × Tokens
unfolding hash_token store_refresh_token
generate_tokens i env user_id ts = signed_pair i env user_id (i.sign user_id) ts

-- 401 for a user or token that is not there or not allowed, 500 for any other error.
abbrev pub turned_away : Error → ℕ
turned_away Error.not_found = 401
turned_away Error.permission_denied = 401
turned_away e = 500

abbrev pub pair_reply : Result TokenResponse × Tokens → Reply TokenResponse × Tokens
pair_reply (err e, ts) = (refused 500, ts)
pair_reply (ok pair, ts) = (replied pair, ts)

abbrev pub logged_in : Issuer → TokenEnv → Result User → Tokens → Reply TokenResponse × Tokens
logged_in i env (err e) ts = (refused (turned_away e), ts)
logged_in i env (ok user) ts = pair_reply (generate_tokens i env user.id ts)

-- GetToken; the credentials are those of the Basic header.
unfoldable pub get_token :
    Outside → Issuer → TokenEnv → Option (Text × Text) → Tokens → Reply TokenResponse × Tokens
unfolding validate_credentials generate_tokens
get_token o i env none ts = (refused 401, ts)
get_token o i env (some (username, password)) ts =
    logged_in i env (validate_credentials o username password) ts

-- The old token goes, and what its deletion returns is dropped.
abbrev pub refreshed : Issuer → Calls → Text → Result Text → Tokens → Reply TokenResponse × Tokens
refreshed i calls hash (err e) ts = (refused (turned_away e), ts)
refreshed i calls hash (ok user_id) ts =
    pair_reply
      (generate_tokens i calls.storing user_id (delete_refresh_token calls.deleting hash ts).1)

unfoldable pub refresh_token : Issuer → Calls → Option Text → Tokens → Reply TokenResponse × Tokens
unfolding hash_token validate_refresh_token delete_refresh_token generate_tokens
refresh_token i calls none ts = (refused 400, ts)
refresh_token i calls (some token) ts =
    if is_empty token
    then (refused 400, ts)
    else let hash = hash_token i token in
      refreshed i calls hash (validate_refresh_token calls.validating hash ts) ts

-- A deletion that fails is logged, and the answer is the same.
unfoldable pub logout : Issuer → TokenEnv → Option Text → Tokens → Reply (Unit {0}) × Tokens
unfolding hash_token delete_refresh_token
logout i env none ts = (refused 400, ts)
logout i env (some token) ts =
    if is_empty token
    then (refused 400, ts)
    else (replied tt, (delete_refresh_token env (hash_token i token) ts).1)
