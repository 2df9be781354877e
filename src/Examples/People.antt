-- ===== src/Examples/People.antt =====
-- Users and their sessions: an admin, a user who may edit, and requests on them.
use media_hub_oss.Prelude.{◌≡◌, refl, arith, true, false, none, some, [], ◌∷◌, ok}
use media_hub_oss.Prelude.Text.{codes, text_eq}
use media_hub_oss.Access.Accounts.{User, UserPermission}
use media_hub_oss.Repository.Tokens.{Token, TokenEnv, validate_refresh_token, new_token}
use media_hub_oss.Users.{Tables, Driver, set_user_permissions, get_user_permissions}
use media_hub_oss.Users.Permissions.{set_user_permissions-get}
use media_hub_oss.Users.Replies.{refused, Crypt, DatabasePermission, UpdateUserPayload}
use media_hub_oss.Users.Requests.{patch_user, remove_user}
use media_hub_oss.Users.Requests.Histories.{update, delete, serve, serve_all}
use media_hub_oss.Users.Requests.LastAdmin.{Kept, serve_all-Kept}
use media_hub_oss.Users.Requests.Saved.{patch_user-get}
use media_hub_oss.Users.Requests.Passwords.{NoSession, serve-NoSession}
use media_hub_oss.Sessions.{Issuer, Calls, refresh_token}
use media_hub_oss.Sessions.Rotation.{check_after, refresh_token-rotates}

abbrev root : User
root = record {
  id = codes "U1";
  username = codes "root";
  is_admin = true;
  password_hash = codes "secret";
  account_type = 0;
}

abbrev pub bob : User
bob = record {
  id = codes "U2";
  username = codes "bob";
  is_admin = false;
  password_hash = codes "hunter2";
  account_type = 0;
}

abbrev bob_token : Token
bob_token = record { user_id = codes "U2"; token_hash = codes "T1"; expiry = 9_000 }

abbrev pub tables : Tables
tables = record { users = root ∷ bob ∷ []; permissions = []; tokens = bob_token ∷ [] }

abbrev token_env : TokenEnv
token_env = record {
  now = 1_000;
  exec_fails = false;
  result_fails = false;
  query_fails = false;
  user_exists = λ id. true;
}

abbrev pub well : Driver
well = record {
  insert_fails = false;
  update_fails = false;
  delete_fails = false;
  result_fails = false;
  get_fails = false;
  list_fails = false;
  count_fails = false;
  permission_fails = λ db. false;
  permissions_fail = λ id. false;
  token_env = token_env;
  database_exists = λ db. true;
  new_ulid = codes "U3";
  is_valid_ulid = λ id. true;
}

abbrev plain : Crypt
plain = record { hash = λ p. ok p; matches = λ hash p. text_eq hash p }

abbrev edit_photos : DatabasePermission
edit_photos = record {
  database_id = codes "D1";
  can_view = true;
  can_create = false;
  can_edit = true;
  can_delete = false;
  can_admin = false;
}

-- A new password and a permission for Bob.
abbrev new_password : UpdateUserPayload
new_password = record {
  username = [];
  password = codes "hunter3";
  is_admin = none;
  permissions = edit_photos ∷ [];
}

-- The only admin can be neither removed nor demoted.
last_admin_stays : (remove_user well (codes "U1") tables).0 ≡ refused 409
unfolding remove_user
last_admin_stays = refl

abbrev demotion : UpdateUserPayload
demotion = record new_password { password = []; is_admin = some false }

last_admin_not_demoted : (patch_user well plain (codes "U1") (some demotion) tables).0 ≡ refused 409
unfolding patch_user
last_admin_not_demoted = refl

serve_all-Kept_example :
    Kept
      (serve_all plain
        ((well, delete (codes "U2")) ∷ (well, delete (codes "U1")) ∷ [])
        tables).users
serve_all-Kept_example =
    serve_all-Kept plain ((well, delete (codes "U2")) ∷ (well, delete (codes "U1")) ∷ []) tables
      ((((refl, tt), (tt, tt)), ((refl, tt), (tt, tt))), omega arith)

abbrev may_edit : UserPermission
may_edit = record { user_id = codes "U2"; database_id = codes "D1"; roles = 37 }

-- A bit that is no right is not kept.
set_user_permissions-get_example :
    get_user_permissions well
      (codes "U2")
      (codes "D1")
      (set_user_permissions well may_edit tables).1
    ≡ ok (record { user_id = codes "U2"; database_id = codes "D1"; roles = 5 })
unfolding set_user_permissions
set_user_permissions-get_example =
    set_user_permissions-get well may_edit tables (codes "U2") (codes "D1") refl refl

patch_user-get_example :
    get_user_permissions well
      (codes "U2")
      (codes "D1")
      (patch_user well plain (codes "U2") (some new_password) tables).1
    ≡ ok (record { user_id = codes "U2"; database_id = codes "D1"; roles = 5 })
unfolding patch_user get_user_permissions
patch_user-get_example =
    patch_user-get well plain (codes "U2") new_password tables (codes "U2") (codes "D1")
      ((refl, refl), tt) refl refl

serve-NoSession_example :
    NoSession (codes "U2") (serve well plain (update (codes "U2") (some new_password)) tables)
unfolding patch_user
serve-NoSession_example =
    serve-NoSession well plain (update (codes "U2") (some new_password)) tables (codes "U2") refl
      refl refl

abbrev issuer : Issuer
issuer = record {
  sign = λ id. ok id;
  random_token = ok (codes "T2");
  sha256_hex = λ t. t;
  refresh_duration = 5_000_000;
}

abbrev calls : Calls
calls = record { validating = token_env; deleting = token_env; storing = token_env }

refresh_token-rotates_example :
    validate_refresh_token token_env
      (codes "T1")
      (refresh_token issuer calls (some (codes "T1")) tables.tokens).1
    ≡ check_after token_env
        (codes "T1")
        (codes "T1")
        (new_token token_env (codes "U2") (codes "T2") 5_000_000)
        (codes "T2")
        tables.tokens
unfolding refresh_token
refresh_token-rotates_example =
    refresh_token-rotates issuer calls (codes "T1") (codes "U2") tables.tokens
      (record { access_token = codes "U2"; refresh_token = codes "T2" }) token_env (codes "T1")
      (refl, tt) refl refl refl
