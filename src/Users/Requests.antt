-- ===== src/Users/Requests.antt =====
-- internal/httpserver/userhandler/users.go: the handlers that write, as what they decide before
-- the first write and what they do then.
pub mod Decisions
pub mod Histories
pub mod LastAdmin
pub mod Granting
pub mod Saved
pub mod Passwords
use media_hub_oss.Prelude.{
  ℕ, Bool, true, false, not, ◌&&◌, ◌||◌, leb, ◌==◌, if◌then◌else◌, Option, none, some, List, [],
  ◌∷◌, ◌++◌, map, Result, ok, err, Error, filter,
}
use media_hub_oss.Prelude.Text.{Text, codes, text_eq, is_empty, one_of}
use media_hub_oss.Access.{
  has_access, new_access_grant, access_view, access_create, access_edit, access_delete,
  access_admin,
}
use media_hub_oss.Access.Accounts.{
  User, UserPermission, is_service_account, is_oidc, account_type_service, account_type_oidc,
  parse_account_type,
}
use media_hub_oss.Access.Holders.{Grants, Holder, is_global_admin, get_all_permissions}
use media_hub_oss.Users.{
  Tables, Driver, create_user, update_user, delete_user, get_users, get_user_by_id,
  count_admin_users, set_user_permissions, get_all_user_permissions,
}
use media_hub_oss.Users.Replies.{
  Reply, refused, replied, ◌>>=◌, ◌>>◌, refuse_if, decoded, found, or_500, Crypt,
  DatabasePermission, UpdateMePayload, CreateUserPayload, UpdateUserPayload, UserResponse, flags_of,
  grant_of, response, has_duplicate,
}
use media_hub_oss.Users.Reads.{shown_permissions}
use media_hub_oss.Repository.Tokens.{delete_all_refresh_tokens_for_user}

-- A failure to revoke is logged.
unfoldable pub revoke : Driver → Text → Tables → Tables
unfolding delete_all_refresh_tokens_for_user
revoke d id t = record t { tokens = (delete_all_refresh_tokens_for_user d.token_env id t.tokens).1 }

-- A handler that writes once it has decided what.
abbrev pub decided : {A B : Type 0} → Reply A → Tables → (A → Reply B × Tables) → Reply B × Tables
decided (refused status) t write = (refused status, t)
decided (replied a) t write = write a

-- UpdateMe, up to the statement that writes.
unfoldable pub new_me : Crypt → Option UpdateMePayload → User → Reply User
unfolding is_service_account is_oidc
new_me c body user = do
  refuse_if (is_oidc user || is_service_account user) 400
  payload ← decoded body
  refuse_if (is_empty payload.old_password || is_empty payload.new_password) 400
  refuse_if (not (c.matches user.password_hash payload.old_password)) 401
  hash ← or_500 (c.hash payload.new_password)
  replied (record user { password_hash = hash })

abbrev pub me_written : Driver → Text → Result User × Tables → Reply (Unit {0}) × Tables
me_written d id (err e, t) = (refused 500, t)
me_written d id (ok u, t) = (replied tt, revoke d id t)

-- `user` is who the request is, from its context.
unfoldable pub update_me :
    Driver → Crypt → Option UpdateMePayload → User → Tables → Reply (Unit {0}) × Tables
unfolding new_me update_user revoke
update_me d c body user t =
    decided (new_me c body user) t λ changed. me_written d user.id (update_user d changed t)

-- CreateUser, up to the insertion.
unfoldable pub new_user : Crypt → Option CreateUserPayload → Reply (User × List DatabasePermission)
unfolding has_duplicate
new_user c body = do
  payload ← decoded body
  refuse_if (is_empty payload.username) 400
  refuse_if (payload.account_type == account_type_oidc) 400
  refuse_if (not (payload.account_type == account_type_service) && is_empty payload.password) 400
  refuse_if (has_duplicate [] payload.permissions) 400
  hash ←
      (if payload.account_type == account_type_service
        then replied (codes "SERVICE_ACCOUNT_NO_LOGIN")
        else or_500 (c.hash payload.password))
  replied (
    record {
      id = [];
      username = payload.username;
      is_admin = payload.is_admin;
      password_hash = hash;
      account_type = payload.account_type;
    },
    payload.permissions,
  )

abbrev pub permission_for : Text → DatabasePermission → UserPermission
permission_for user_id p = record {
  user_id = user_id;
  database_id = p.database_id;
  roles = grant_of p;
}

abbrev pub applied_next :
    DatabasePermission
    → Bool
    → Result (Unit {0})
    → List DatabasePermission × Tables
    → List DatabasePermission × Tables
applied_next p true attempt later = later
applied_next p false (err e) later = later
applied_next p false (ok done) later = (p ∷ later.0, later.1)

-- The permissions that were saved; one without a role is not.
unfoldable pub add_permissions :
    Driver → Text → List DatabasePermission → Tables → List DatabasePermission × Tables
unfolding set_user_permissions new_access_grant
add_permissions d user_id [] t = ([], t)
add_permissions d user_id (p ∷ ps) t =
    let attempt = set_user_permissions d (permission_for user_id p) t in
    let later = add_permissions d user_id ps (if grant_of p == 0 then t else attempt.1) in
    applied_next p (grant_of p == 0) attempt.0 later

abbrev pub user_written :
    Driver → List DatabasePermission → Result User × Tables → Reply UserResponse × Tables
user_written d permissions (err Error.user_exists, t) = (refused 409, t)
user_written d permissions (err e, t) = (refused 500, t)
user_written d permissions (ok created, t) =
    let (applied, after) = add_permissions d created.id permissions t in
    (replied (response created applied), after)

-- CreateUser
unfoldable pub post_user :
    Driver → Crypt → Option CreateUserPayload → Tables → Reply UserResponse × Tables
unfolding new_user create_user add_permissions
post_user d c body t = decided (new_user c body) t λ u. user_written d u.1 (create_user d u.0 t)

-- What UpdateUser has decided before it writes: the row, and what of it changes.
pub record Change : Type 0 where
  pub user : User
  pub user_changed : Bool
  pub password_changed : Bool
  pub permissions : List DatabasePermission

abbrev pub rename : Text → User → User × Bool
rename name u =
    if not (is_empty name) && not (text_eq name u.username)
    then (record u { username = name }, true)
    else (u, false)

abbrev pub set_password : Crypt → Text → User → Reply (User × Bool)
set_password c password u =
    if is_empty password
    then replied (u, false)
    else if is_oidc u || is_service_account u
    then refused 400
    else (or_500 (c.hash password)) >>= λ h. replied (record u { password_hash = h }, true)

abbrev pub not_last_admin : Driver → Tables → Reply (Unit {0})
not_last_admin d t = or_500 (count_admin_users d t) >>= λ n. refuse_if (leb n 1) 409

-- The last admin stays one.
abbrev pub set_admin : Driver → Tables → Option Bool → User → Reply (User × Bool)
set_admin d t none u = replied (u, false)
set_admin d t (some wanted) u =
    if u.is_admin && not wanted
    then (not_last_admin d t >> replied (record u { is_admin = wanted }, true))
    else replied (record u { is_admin = wanted }, true)

unfoldable pub plan_update :
    Driver → Crypt → Text → Option UpdateUserPayload → Tables → Reply Change
unfolding has_duplicate get_user_by_id is_oidc is_service_account count_admin_users
plan_update d c id body t = do
  refuse_if (is_empty id) 400
  refuse_if (not (d.is_valid_ulid id)) 400
  payload ← decoded body
  refuse_if (has_duplicate [] payload.permissions) 400
  existing ← found (get_user_by_id d id t)
  let named = rename payload.username existing
  keyed ← set_password c payload.password named.0
  final ← set_admin d t payload.is_admin keyed.0
  replied (record {
    user = final.0;
    user_changed = named.1 || (keyed.1 || final.1);
    password_changed = keyed.1;
    permissions = payload.permissions;
  })

-- Every permission of the payload is written, one without a role as a removal; a failure is logged.
unfoldable pub apply_permissions : Driver → Text → List DatabasePermission → Tables → Tables
unfolding set_user_permissions new_access_grant
apply_permissions d user_id [] t = t
apply_permissions d user_id (p ∷ ps) t =
    apply_permissions d user_id ps (set_user_permissions d (permission_for user_id p) t).1

abbrev pub finish_update : Driver → Text → Change → Tables → Reply UserResponse × Tables
finish_update d id change t =
    let after = apply_permissions d id change.permissions t in
    (replied (response change.user (shown_permissions d change.user after)), after)

abbrev pub change_written :
    Driver → Text → Change → Result User × Tables → Reply UserResponse × Tables
change_written d id change (err Error.user_exists, t) = (refused 409, t)
change_written d id change (err Error.not_found, t) = (refused 404, t)
change_written d id change (err e, t) = (refused 500, t)
change_written d id change (ok u, t) =
    finish_update d id change (if change.password_changed then revoke d id t else t)

-- UpdateUser
unfoldable pub patch_user :
    Driver → Crypt → Text → Option UpdateUserPayload → Tables → Reply UserResponse × Tables
unfolding plan_update update_user apply_permissions shown_permissions revoke
patch_user d c id body t = decided (plan_update d c id body t) t λ change.
    if change.user_changed
    then change_written d id change (update_user d change.user t)
    else finish_update d id change t

-- DeleteUser, up to the deletion.
unfoldable pub plan_delete : Driver → Text → Tables → Reply User
unfolding get_user_by_id count_admin_users
plan_delete d id t = do
  refuse_if (is_empty id) 400
  refuse_if (not (d.is_valid_ulid id)) 400
  user ← found (get_user_by_id d id t)
  (if user.is_admin then not_last_admin d t else replied tt)
  replied user

abbrev pub deletion_written :
    Text → Text → Result (Unit {0}) × Tables → Reply (Text × Text) × Tables
deletion_written id name (err e, t) = (found (err e), t)
deletion_written id name (ok done, t) = (replied (name, id), t)

-- DeleteUser: the name and the id of its message.
unfoldable pub remove_user : Driver → Text → Tables → Reply (Text × Text) × Tables
unfolding plan_delete delete_user
remove_user d id t =
    decided (plan_delete d id t) t λ user. deletion_written id user.username (delete_user d id t)
