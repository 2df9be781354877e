-- ===== src/ApiKeys.antt =====
-- internal/repository/sqlite/api_key.go: the table of API keys. Times are nanoseconds since 1970, and
-- a column of a time is in milliseconds.
pub mod Requests
use media_hub_oss.Prelude.{
  ℕ, ◌*◌, ◌/◌, ◌-◌, Bool, true, false, not, ◌&&◌, ◌||◌, ltb, ◌==◌, if◌then◌else◌, Option, none,
  some, List, [], ◌∷◌, ◌++◌, filter, length, map, Result, ok, err, Error, or_error,
}
use media_hub_oss.Prelude.Text.{Text, text_eq, is_empty}
use media_hub_oss.Prelude.Keyed.{find_by, has_key, change, without}
use media_hub_oss.Access.{
  has_access, new_access_grant, access_view, access_create, access_edit, access_delete,
  access_admin,
}
use media_hub_oss.Access.Accounts.{User, ApiKey}
use media_hub_oss.Users.{Tables, Driver, user_id_of}

pub record KeyRow : Type 0 where
  pub id : Text
  pub user_id : Text
  pub name : Text
  pub key_hash : Text
  pub key_hint : Text
  pub scope_view : Bool
  pub scope_create : Bool
  pub scope_edit : Bool
  pub scope_delete : Bool
  pub scope_admin : Bool
  pub created_at : ℕ
  pub expires_at : Option ℕ
  pub last_used_at : Option ℕ

abbrev pub KeyTable : Type 0
KeyTable = List KeyRow

-- The driver, the clock and the ULID library, with the tables of the users that
-- keys refer to.
pub record KeyEnv : Type 0 where
  pub now : ℕ
  pub new_ulid : Text
  pub driver : Driver
  pub tables : Tables
  pub query_fails : Bool
  pub list_fails : Bool
  pub exec_fails : Bool
  pub result_fails : Bool

abbrev pub key_id_of : KeyRow → Text
key_id_of r = r.id

abbrev pub key_hash_of : KeyRow → Text
key_hash_of r = r.key_hash

-- UnixMilli, and time.UnixMilli
abbrev pub to_millis : ℕ → ℕ
to_millis t = t / 1_000_000

abbrev pub from_millis : ℕ → ℕ
from_millis ms = ms * 1_000_000

-- NULL for a time that is zero.
abbrev pub column_of : Option ℕ → Option ℕ
column_of none = none
column_of (some t) = some (to_millis t)

abbrev pub time_of : Option ℕ → Option ℕ
time_of none = none
time_of (some ms) = some (from_millis ms)

-- The row of a key that was created at a time.
abbrev pub key_row : ApiKey → ℕ → KeyRow
key_row k created = record {
  id = k.id;
  user_id = k.user_id;
  name = k.name;
  key_hash = k.key_hash;
  key_hint = k.key_hint;
  scope_view = has_access k.scope access_view;
  scope_create = has_access k.scope access_create;
  scope_edit = has_access k.scope access_edit;
  scope_delete = has_access k.scope access_delete;
  scope_admin = has_access k.scope access_admin;
  created_at = to_millis created;
  expires_at = column_of k.expires_at;
  last_used_at = column_of k.last_used_at;
}

abbrev pub key_of : KeyRow → ApiKey
key_of r = record {
  id = r.id;
  user_id = r.user_id;
  name = r.name;
  key_hash = r.key_hash;
  key_hint = r.key_hint;
  scope = new_access_grant r.scope_view r.scope_create r.scope_edit r.scope_delete r.scope_admin;
  created_at = some (from_millis r.created_at);
  expires_at = time_of r.expires_at;
  last_used_at = time_of r.last_used_at;
}

abbrev pub creation_time : KeyEnv → Option ℕ → ℕ
creation_time env none = env.now
creation_time env (some t) = t

abbrev pub with_defaults : KeyEnv → ApiKey → ApiKey
with_defaults env k = record k {
  id = if is_empty k.id then env.new_ulid else k.id;
  created_at = some (creation_time env k.created_at);
}

abbrev pub insert_key : KeyEnv → ApiKey → KeyTable → Result ApiKey × KeyTable
insert_key env k t =
    if env.exec_fails
    then (err Error.failure, t)
    else if has_key key_id_of k.id t || has_key key_hash_of k.key_hash t
    then (err Error.conflict, t)
    else if has_key user_id_of k.user_id env.tables.users
    then (ok k, t ++ (key_row k (creation_time env k.created_at) ∷ []))
    else (err Error.failure, t)

unfoldable pub create_api_key : KeyEnv → ApiKey → KeyTable → Result ApiKey × KeyTable
create_api_key env k t = insert_key env (with_defaults env k) t

unfoldable pub get_api_key_by_id : KeyEnv → Text → KeyTable → Result ApiKey
get_api_key_by_id env id t =
    if env.query_fails
    then err Error.failure
    else elim (find_by key_id_of id t) [ none ↦ err Error.not_found | some r ↦ ok (key_of r) ]

-- JOIN users u ON ak.user_id = u.id
abbrev pub with_owner : List User → Option KeyRow → Result (ApiKey × User)
with_owner users none = err Error.not_found
with_owner users (some r) = elim (find_by user_id_of r.user_id users) [
  | none ↦ err Error.not_found
  | some u ↦ ok (key_of r, u)
]

unfoldable pub get_api_key_with_owner_by_hash : KeyEnv → Text → KeyTable → Result (ApiKey × User)
get_api_key_with_owner_by_hash env hash t =
    if env.query_fails
    then err Error.failure
    else with_owner env.tables.users (find_by key_hash_of hash t)

unfoldable pub get_api_keys_by_user_id : KeyEnv → Text → KeyTable → Result (List ApiKey)
get_api_keys_by_user_id env user_id t =
    if env.list_fails
    then err Error.failure
    else ok (map key_of (filter (λ r. text_eq r.user_id user_id) t))

unfoldable pub get_all_api_keys : KeyEnv → KeyTable → Result (List ApiKey)
get_all_api_keys env t = if env.list_fails then err Error.failure else ok (map key_of t)

-- A statement that changes one row, and the number of rows that it reports.
abbrev pub one_row : KeyEnv → Text → KeyTable → KeyTable → Result (Unit {0}) × KeyTable
one_row env id t after =
    if env.exec_fails
    then (err Error.failure, t)
    else if env.result_fails
    then (err Error.failure, after)
    else (if has_key key_id_of id t then ok tt else err Error.not_found, after)

-- The columns that UpdateAPIKey sets.
abbrev pub updated_row : ApiKey → KeyRow → KeyRow
updated_row k r = record r {
  name = k.name;
  scope_view = has_access k.scope access_view;
  scope_create = has_access k.scope access_create;
  scope_edit = has_access k.scope access_edit;
  scope_delete = has_access k.scope access_delete;
  scope_admin = has_access k.scope access_admin;
  expires_at = column_of k.expires_at;
  last_used_at = column_of k.last_used_at;
}

-- UPDATE … WHERE id = ?
abbrev pub set_row : (KeyRow → KeyRow) → Text → KeyTable → KeyTable
set_row f id t = map (λ r. if text_eq r.id id then f r else r) t

abbrev pub key_result : ApiKey → Result (Unit {0}) × KeyTable → Result ApiKey × KeyTable
key_result k (err e, t) = (err e, t)
key_result k (ok done, t) = (ok k, t)

unfoldable pub update_api_key : KeyEnv → ApiKey → KeyTable → Result ApiKey × KeyTable
update_api_key env k t = key_result k (one_row env k.id t (set_row (updated_row k) k.id t))

unfoldable pub delete_api_key : KeyEnv → Text → KeyTable → Result (Unit {0}) × KeyTable
delete_api_key env id t = one_row env id t (without key_id_of id t)

-- Rows without an expiry stay.
abbrev pub is_live : ℕ → Option ℕ → Bool
is_live now none = true
is_live now (some ms) = not (ltb ms (to_millis now))

unfoldable pub delete_expired_api_keys : KeyEnv → KeyTable → Result ℕ × KeyTable
delete_expired_api_keys env t =
    let left = filter (λ r. is_live env.now r.expires_at) t in
    if env.exec_fails
    then (err Error.failure, t)
    else if env.result_fails
    then (err Error.failure, left)
    else (ok (length t - length left), left)

-- `last_used` is how long ago.
unfoldable pub update_api_key_last_used :
    KeyEnv → Text → ℕ → KeyTable → Result (Unit {0}) × KeyTable
update_api_key_last_used env id last_used t =
    one_row env id t
      (set_row (λ r. record r { last_used_at = some (to_millis (env.now - last_used)) }) id t)
