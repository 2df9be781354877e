-- ===== src/Access/Auth.antt =====
-- internal/httpserver/auth/middlewares.go and utils.go: who a request is, and what it may reach.
-- The repository and the libraries for JWT, base64, SHA-256 and bcrypt are fields of `Outside`.
pub mod Rights
pub mod Identity
use media_hub_oss.Prelude.{
  ℕ, Bool, true, false, not, ◌&&◌, ◌||◌, ltb, leb, if◌then◌else◌, Option, none, some, List, [], ◌∷◌,
  Result, ok, err, Error, length,
}
use media_hub_oss.Prelude.Text.{Text, codes, text_eq, to_lower, is_empty, has_prefix}
use media_hub_oss.Prelude.{◌==◌, drop}
use media_hub_oss.Access.{has_access, access_admin, new_access_grant}
use media_hub_oss.Access.Accounts.{User, ApiKey, is_service_account, is_oidc}
use media_hub_oss.Access.Holders.{
  Grants, Holder, global_admin, api_key_of_admin, user_permissions, is_global_admin, has_permission,
}

-- A token with a valid HS256 signature, read by the JWT library.
pub record Claims : Type 0 where
  pub valid : Bool
  pub expires_at : Option ℕ
  pub subject : Option Text

pub record Outside : Type 0 where
  pub now : ℕ
  pub user_by_id : Text → Result User
  pub user_by_username : Text → Result User
  pub key_with_owner : Text → Result (ApiKey × User)
  pub parse_jwt : Text → Result Claims
  pub decode_base64 : Text → Option Text
  pub sha256_hex : Text → Text
  pub password_matches : Text → Text → Bool

pub record Request : Type 0 where
  pub authorization : Text
  pub query_token : Text

-- strings.SplitN(s, sep, 2), where the separator occurs.
abbrev pub cut : ℕ → Text → Option (Text × Text)
cut sep [] = none
cut sep (c ∷ s) =
    let rest = cut sep s in
    if c == sep then some ([], s) else elim rest [ none ↦ none | some p ↦ some (c ∷ p.0, p.1) ]

unfoldable pub extract_auth_credentials : Request → Result (Text × Text)
extract_auth_credentials r =
    if not (is_empty r.authorization)
    then (elim (cut 32 r.authorization) [ none ↦ err Error.failure | some p ↦ ok p ])
    else if not (is_empty r.query_token)
    then ok (codes "Bearer", r.query_token)
    else err Error.failure

-- `exp.Before(time.Now())`
abbrev pub live_claims : Outside → Claims → Result Text
live_claims o claims = elim claims.expires_at [
  | none ↦ err Error.failure
  | some exp ↦
      if ltb exp o.now
      then err Error.failure
      else elim claims.subject [ none ↦ err Error.failure | some sub ↦ ok sub ]
]

unfoldable pub validate_jwt : Outside → Text → Result User
validate_jwt o token = elim (o.parse_jwt token) [
  | err e ↦ err e
  | ok claims ↦
      if not claims.valid
      then err Error.failure
      else elim (live_claims o claims) [ err e ↦ err e | ok sub ↦ o.user_by_id sub ]
]

-- ValidateBasicAuth
unfoldable pub validate_credentials : Outside → Text → Text → Result User
unfolding is_service_account is_oidc
validate_credentials o username password = elim (o.user_by_username username) [
  | err e ↦ err e
  | ok user ↦
      if is_service_account user || is_oidc user
      then err Error.permission_denied
      else if o.password_matches user.password_hash password
      then ok user
      else err Error.permission_denied
]

unfoldable pub validate_basic_auth : Outside → Text → Result User
unfolding validate_credentials
validate_basic_auth o encoded = elim (o.decode_base64 encoded) [
  | none ↦ err Error.failure
  | some decoded ↦ elim (cut 58 decoded) [
    | none ↦ err Error.failure
    | some p ↦ validate_credentials o p.0 p.1
  ]
]

-- `!key.ExpiresAt.IsZero() && time.Now().After(key.ExpiresAt)`
abbrev pub key_expired : ℕ → Option ℕ → Bool
key_expired now none = false
key_expired now (some t) = ltb t now

unfoldable pub validate_api_key : Outside → Text → Result (User × ApiKey)
validate_api_key o token =
    if leb (length token) 4
    then err Error.failure
    else elim (o.key_with_owner (o.sha256_hex (drop 4 token))) [
      | err e ↦ err e
      | ok (key, user) ↦
          if key_expired o.now key.expires_at then err Error.failure else ok (user, key)
    ]

abbrev pub no_key : ApiKey
no_key = record {
  id = [];
  user_id = [];
  name = [];
  key_hash = [];
  key_hint = [];
  scope = 0;
  created_at = none;
  expires_at = none;
  last_used_at = none;
}

abbrev pub without_key : Result User → Result (User × ApiKey)
without_key (err e) = err e
without_key (ok user) = ok (user, no_key)

unfoldable pub authenticate_request : Outside → Text → Text → Result (User × ApiKey)
unfolding to_lower has_prefix validate_api_key validate_jwt validate_basic_auth
authenticate_request o schema value =
    if text_eq (to_lower schema) (codes "bearer")
    then (if has_prefix value (codes "srv_")
        then validate_api_key o value
        else without_key (validate_jwt o value))
    else if text_eq (to_lower schema) (codes "basic")
    then without_key (validate_basic_auth o value)
    else err Error.failure

abbrev pub is_some_time : Option ℕ → Bool
is_some_time none = false
is_some_time (some t) = true

unfoldable pub cache_user_permissions : User → ApiKey → Bool → Holder
unfolding has_access new_access_grant
cache_user_permissions user key is_api_key =
    let effective_admin =
      if is_api_key then user.is_admin && has_access key.scope access_admin else user.is_admin in
    if effective_admin
    then global_admin user.id
    else if is_api_key
    then (if user.is_admin
        then api_key_of_admin user.id key.scope
        else user_permissions user.id key.scope)
    else user_permissions user.id (new_access_grant true true true true true)

-- AuthMiddleware: what it puts into the context.
unfoldable pub auth_middleware : Outside → Request → Result (User × Holder)
unfolding extract_auth_credentials authenticate_request cache_user_permissions
auth_middleware o r = elim (extract_auth_credentials r) [
  | err e ↦ err e
  | ok (schema, value) ↦ elim (authenticate_request o schema value) [
    | err e ↦ err e
    | ok (user, key) ↦ ok (user, cache_user_permissions user key (is_some_time key.created_at))
  ]
]

-- What a middleware does with a request: hand it on, or answer.
pub data Verdict : Type 0 where
  next bad_request forbidden : Verdict

unfoldable pub require_global_admin : Holder → Verdict
unfolding is_global_admin
require_global_admin holder = if is_global_admin holder then next else forbidden

unfoldable pub require_database_permission : Grants → ℕ → Text → Holder → Verdict
unfolding has_permission
require_database_permission grants perm db_id holder =
    if is_empty db_id
    then bad_request
    else if has_permission grants holder db_id perm
    then next
    else forbidden

unfoldable pub require_self_or_admin : User → Text → Holder → Verdict
unfolding is_global_admin
require_self_or_admin user user_ulid holder =
    if is_global_admin holder
    then next
    else if is_empty user_ulid || not (text_eq user_ulid user.id)
    then forbidden
    else next
