-- ===== src/Access/Accounts.antt =====
-- internal/repository/account_type.go, and users, API keys and permissions of models.go.
-- An account type is a byte; `json` stands for a JSON value that the json package has read.
pub mod RoundTrip
use media_hub_oss.Prelude.{
  ℕ, Bool, ltb, ◌==◌, if◌then◌else◌, Option, List, [], ◌∷◌, Result, ok, err, Error,
}
use media_hub_oss.Prelude.Text.{Text, codes, to_lower, one_of, is_empty}

pub record User : Type 0 where
  pub id : Text
  pub username : Text
  pub is_admin : Bool
  pub password_hash : Text
  pub account_type : ℕ

-- A time that is zero is `none`: no expiry, never used, never created.
pub record ApiKey : Type 0 where
  pub id : Text
  pub user_id : Text
  pub name : Text
  pub key_hash : Text
  pub key_hint : Text
  pub scope : ℕ
  pub created_at : Option ℕ
  pub expires_at : Option ℕ
  pub last_used_at : Option ℕ

pub record UserPermission : Type 0 where
  pub user_id : Text
  pub database_id : Text
  pub roles : ℕ

abbrev pub account_type_local : ℕ
account_type_local = 0

abbrev pub account_type_service : ℕ
account_type_service = 1

abbrev pub account_type_oidc : ℕ
account_type_oidc = 2

-- String
unfoldable pub account_type_string : ℕ → Text
account_type_string a =
    if a == account_type_local
    then codes "local"
    else if a == account_type_service
    then codes "service_account"
    else if a == account_type_oidc
    then codes "oidc"
    else codes "local"

unfoldable pub parse_account_type : Text → Result ℕ
unfolding to_lower
parse_account_type s =
    let low = to_lower s in
    if one_of low (codes "local" ∷ codes "0" ∷ [])
    then ok account_type_local
    else if one_of low (codes "service" ∷ codes "service_account" ∷ codes "1" ∷ [])
    then ok account_type_service
    else if one_of low (codes "oidc" ∷ codes "2" ∷ [])
    then ok account_type_oidc
    else err Error.validation

pub data Json : Type 0 where
  null other : Json
  string : Text → Json
  number : ℕ → Json

-- MarshalJSON
unfoldable pub account_type_to_json : ℕ → Json
unfolding account_type_string
account_type_to_json a = string (account_type_string a)

-- UnmarshalJSON: a number has to fit a byte.
unfoldable pub account_type_from_json : Json → Result ℕ
unfolding parse_account_type
account_type_from_json null = ok account_type_local
account_type_from_json (string s) =
    if is_empty s then ok account_type_local else parse_account_type s
account_type_from_json (number n) = if ltb n 256 then ok n else err Error.validation
account_type_from_json other = err Error.validation

unfoldable pub is_service_account : User → Bool
is_service_account u = u.account_type == account_type_service

unfoldable pub is_oidc : User → Bool
is_oidc u = u.account_type == account_type_oidc

unfoldable pub is_local : User → Bool
is_local u = u.account_type == account_type_local
