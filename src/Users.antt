-- ===== src/Users.antt =====
-- internal/repository/sqlite/user.go: the tables of users and of their permissions. A row that goes
-- takes the rows that refer to it along (ON DELETE CASCADE).
pub mod Permissions
pub mod Accounts
pub mod Replies
pub mod Reads
pub mod Requests
use media_hub_oss.Prelude.{
  ℕ, Bool, true, false, not, ◌&&◌, ◌||◌, leb, ◌==◌, if◌then◌else◌, Option, none, some, List, [],
  ◌∷◌, ◌++◌, filter, length, map, Result, ok, err, Error, or_error,
}
use media_hub_oss.Prelude.Text.{Text, text_eq, is_empty}
use media_hub_oss.Prelude.Keyed.{find_by, has_key, change, without, taken_by_other, count}
use media_hub_oss.Access.{
  has_access, new_access_grant, access_view, access_create, access_edit, access_delete,
  access_admin,
}
use media_hub_oss.Access.Accounts.{User, UserPermission}
use media_hub_oss.Repository.Tokens.{Token, Tokens, TokenEnv}

-- A row of `database_permissions`.
pub record PermissionRow : Type 0 where
  pub user_id : Text
  pub database_id : Text
  pub can_view : Bool
  pub can_create : Bool
  pub can_edit : Bool
  pub can_delete : Bool
  pub can_admin : Bool

pub record Tables : Type 0 where
  pub users : List User
  pub permissions : List PermissionRow
  pub tokens : Tokens

-- The driver: which statements fail, a statement on permissions by its database or its user; the
-- databases there are; and the ULID library. `token_env` is the driver at a statement on tokens.
pub record Driver : Type 0 where
  pub insert_fails : Bool
  pub update_fails : Bool
  pub delete_fails : Bool
  pub result_fails : Bool
  pub get_fails : Bool
  pub list_fails : Bool
  pub count_fails : Bool
  pub permission_fails : Text → Bool
  pub permissions_fail : Text → Bool
  pub token_env : TokenEnv
  pub database_exists : Text → Bool
  pub new_ulid : Text
  pub is_valid_ulid : Text → Bool

abbrev pub user_id_of : User → Text
user_id_of u = u.id

abbrev pub username_of : User → Text
username_of u = u.username

-- CHECK(length(username) > 0 AND length(username) <= 64)
abbrev pub fits : Text → Bool
fits name = leb 1 (length name) && leb (length name) 64

abbrev pub insert_user : Driver → User → Tables → Result User × Tables
insert_user d user t =
    if d.insert_fails || not (fits user.username)
    then (err Error.failure, t)
    else if has_key user_id_of user.id t.users || has_key username_of user.username t.users
    then (err Error.user_exists, t)
    else (ok user, record t { users = t.users ++ (user ∷ []) })

unfoldable pub create_user : Driver → User → Tables → Result User × Tables
create_user d user t =
    if is_empty user.id
    then insert_user d (record user { id = d.new_ulid }) t
    else if d.is_valid_ulid user.id
    then insert_user d user t
    else (err Error.validation, t)

abbrev pub is_admin_of : User → Bool
is_admin_of u = u.is_admin

unfoldable pub count_admin_users : Driver → Tables → Result ℕ
count_admin_users d t = if d.count_fails then err Error.failure else ok (count is_admin_of t.users)

-- The user's row, with what refers to it.
abbrev pub without_user : Text → Tables → Tables
without_user id t = record {
  users = without user_id_of id t.users;
  permissions = filter (λ p. not (text_eq p.user_id id)) t.permissions;
  tokens = filter (λ k. not (text_eq k.user_id id)) t.tokens;
}

unfoldable pub delete_user : Driver → Text → Tables → Result (Unit {0}) × Tables
delete_user d id t =
    if d.delete_fails
    then (err Error.failure, t)
    else if d.result_fails
    then (err Error.failure, without_user id t)
    else (if has_key user_id_of id t.users then ok tt else err Error.not_found, without_user id t)

unfoldable pub update_user : Driver → User → Tables → Result User × Tables
update_user d user t =
    if not (has_key user_id_of user.id t.users)
    then (err (if d.update_fails || d.result_fails then Error.failure else Error.not_found), t)
    else if d.update_fails || not (fits user.username)
    then (err Error.failure, t)
    else if taken_by_other user_id_of username_of user.id user.username t.users
    then (err Error.user_exists, t)
    else (
      if d.result_fails then err Error.failure else ok user,
      record t { users = change user_id_of user.id user t.users },
    )

-- `accountType` is a pointer, nil for every type.
abbrev pub of_type : Option ℕ → User → Bool
of_type none u = true
of_type (some a) u = u.account_type == a

unfoldable pub get_users : Driver → Option ℕ → Tables → Result (List User)
get_users d account_type t =
    if d.list_fails then err Error.failure else ok (filter (of_type account_type) t.users)

unfoldable pub get_user_by_id : Driver → Text → Tables → Result User
get_user_by_id d id t =
    if d.get_fails
    then err Error.failure
    else or_error (find_by user_id_of id t.users) Error.not_found

unfoldable pub get_user_by_username : Driver → Text → Tables → Result User
get_user_by_username d name t =
    if d.get_fails
    then err Error.failure
    else or_error (find_by username_of name t.users) Error.not_found

abbrev pub is_for : Text → Text → PermissionRow → Bool
is_for user_id database_id p = text_eq p.user_id user_id && text_eq p.database_id database_id

abbrev pub row_of : UserPermission → PermissionRow
row_of p = record {
  user_id = p.user_id;
  database_id = p.database_id;
  can_view = has_access p.roles access_view;
  can_create = has_access p.roles access_create;
  can_edit = has_access p.roles access_edit;
  can_delete = has_access p.roles access_delete;
  can_admin = has_access p.roles access_admin;
}

-- INSERT … ON CONFLICT (user_id, database_id) DO UPDATE
abbrev pub upsert : PermissionRow → List PermissionRow → List PermissionRow
upsert row [] = row ∷ []
upsert row (p ∷ ps) =
    let rest = upsert row ps in if is_for row.user_id row.database_id p then row ∷ ps else p ∷ rest

unfoldable pub set_user_permissions : Driver → UserPermission → Tables → Result (Unit {0}) × Tables
set_user_permissions d p t =
    if d.permission_fails p.database_id
    then (err Error.failure, t)
    else if p.roles == 0
    then (
      ok tt,
      record t { permissions = filter (λ r. not (is_for p.user_id p.database_id r)) t.permissions },
    )
    else if has_key user_id_of p.user_id t.users && d.database_exists p.database_id
    then (ok tt, record t { permissions = upsert (row_of p) t.permissions })
    else (err Error.failure, t)

abbrev pub find_permission : Text → Text → List PermissionRow → Option PermissionRow
find_permission user_id database_id [] = none
find_permission user_id database_id (p ∷ ps) =
    if is_for user_id database_id p then some p else find_permission user_id database_id ps

abbrev pub roles_of : PermissionRow → ℕ
roles_of p = new_access_grant p.can_view p.can_create p.can_edit p.can_delete p.can_admin

abbrev pub permission_of : PermissionRow → UserPermission
permission_of p = record { user_id = p.user_id; database_id = p.database_id; roles = roles_of p }

unfoldable pub get_user_permissions : Driver → Text → Text → Tables → Result UserPermission
get_user_permissions d user_id database_id t =
    if d.permission_fails database_id
    then err Error.failure
    else elim (find_permission user_id database_id t.permissions) [
      | none ↦ err Error.not_found
      | some p ↦ ok (record { user_id = user_id; database_id = database_id; roles = roles_of p })
    ]

unfoldable pub get_all_user_permissions : Driver → Text → Tables → Result (List UserPermission)
get_all_user_permissions d user_id t =
    if d.permissions_fail user_id
    then err Error.failure
    else ok (map permission_of (filter (λ p. text_eq p.user_id user_id) t.permissions))
