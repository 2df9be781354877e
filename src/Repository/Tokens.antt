-- ===== src/Repository/Tokens.antt =====
-- internal/repository/sqlite/token.go: refresh tokens, by their hashes. A statement outside a
-- transaction stays done when reading its result fails. Times are nanoseconds since 1970, and an
-- expiry is in milliseconds.
pub mod Sessions
use media_hub_oss.Prelude.{
  ℕ, ◌+◌, ◌*◌, ◌/◌, Bool, true, false, not, ◌||◌, ltb, if◌then◌else◌, Option, none, some, List, [],
  ◌∷◌, ◌++◌, filter, length, Result, ok, err, Error, ◌==◌, ◌-◌,
}
use media_hub_oss.Prelude.Text.{Text, text_eq}

pub record Token : Type 0 where
  pub user_id : Text
  pub token_hash : Text
  pub expiry : ℕ

abbrev pub Tokens : Type 0
Tokens = List Token

-- The clock, the driver, and the foreign key into the users.
pub record TokenEnv : Type 0 where
  pub now : ℕ
  pub exec_fails : Bool
  pub result_fails : Bool
  pub query_fails : Bool
  pub user_exists : Text → Bool

abbrev pub milliseconds : ℕ → ℕ
milliseconds t = t / 1_000_000

unfoldable pub find_token : Text → Tokens → Option Token
find_token h [] = none
find_token h (t ∷ ts) = if text_eq t.token_hash h then some t else find_token h ts

abbrev pub is_taken : Option Token → Bool
is_taken none = false
is_taken (some t) = true

abbrev pub new_token : TokenEnv → Text → Text → ℕ → Token
new_token env user_id token_hash valid_duration = record {
  user_id = user_id;
  token_hash = token_hash;
  expiry = milliseconds (env.now + valid_duration);
}

-- The hash is unique in the table.
unfoldable pub store_refresh_token :
    TokenEnv → Text → Text → ℕ → Tokens → Result (Unit {0}) × Tokens
unfolding find_token
store_refresh_token env user_id token_hash valid_duration ts =
    if env.exec_fails || (is_taken (find_token token_hash ts) || not (env.user_exists user_id))
    then (err Error.failure, ts)
    else (ok tt, ts ++ (new_token env user_id token_hash valid_duration ∷ []))

abbrev pub live_user : ℕ → Option Token → Result Text
live_user now none = err Error.not_found
live_user now (some t) =
    if ltb (t.expiry * 1_000_000) now then err Error.not_found else ok t.user_id

unfoldable pub validate_refresh_token : TokenEnv → Text → Tokens → Result Text
unfolding find_token
validate_refresh_token env token_hash ts =
    if env.query_fails then err Error.failure else live_user env.now (find_token token_hash ts)

-- The rows that a DELETE leaves, and the number that it reports.
abbrev pub deleted : TokenEnv → (Token → Bool) → Tokens → Result ℕ × Tokens
deleted env keep ts =
    if env.exec_fails
    then (err Error.failure, ts)
    else if env.result_fails
    then (err Error.failure, filter keep ts)
    else (ok (length ts - length (filter keep ts)), filter keep ts)

abbrev pub some_deleted : Result ℕ × Tokens → Result (Unit {0}) × Tokens
some_deleted (err e, ts) = (err e, ts)
some_deleted (ok n, ts) = (if n == 0 then err Error.not_found else ok tt, ts)

unfoldable pub delete_refresh_token : TokenEnv → Text → Tokens → Result (Unit {0}) × Tokens
delete_refresh_token env token_hash ts =
    some_deleted (deleted env (λ t. not (text_eq t.token_hash token_hash)) ts)

unfoldable pub delete_expired_refresh_tokens : TokenEnv → Tokens → Result ℕ × Tokens
delete_expired_refresh_tokens env ts =
    deleted env (λ t. not (ltb t.expiry (milliseconds env.now))) ts

unfoldable pub delete_all_refresh_tokens_for_user :
    TokenEnv → Text → Tokens → Result (Unit {0}) × Tokens
delete_all_refresh_tokens_for_user env user_id ts =
    if env.exec_fails
    then (err Error.failure, ts)
    else (ok tt, filter (λ t. not (text_eq t.user_id user_id)) ts)
