-- ===== src/Users/Replies.antt =====
-- internal/httpserver/userhandler/models.go, and how the handlers of users.go answer: with the body
-- of a 200 (201 for a creation) or with the status of a refusal. A request body is none where its
-- JSON does not decode.
use media_hub_oss.Prelude.{
  ℕ, Bool, true, false, ◌||◌, Option, none, some, List, [], ◌∷◌, Result, ok, err, Error,
}
use media_hub_oss.Prelude.Text.{Text, one_of}
use media_hub_oss.Access.{
  has_access, new_access_grant, access_view, access_create, access_edit, access_delete,
  access_admin,
}
use media_hub_oss.Access.Accounts.{User}

pub data Reply (A : Type 0) : Type 0 where
  refused : ℕ → Reply A
  replied : A → Reply A

infixl 5 ◌>>=◌ ◌>>◌
abbrev pub ◌>>=◌ : {B A : Type 0} → Reply A → (A → Reply B) → Reply B
refused status >>= next = refused status
replied a >>= next = next a

abbrev pub ◌>>◌ : {B : Type 0} → Reply (Unit {0}) → Reply B → Reply B
step >> rest = step >>= λ t. rest

-- `if test { respond with an error; return }`
abbrev pub refuse_if : Bool → ℕ → Reply (Unit {0})
refuse_if true status = refused status
refuse_if false status = replied tt

abbrev pub decoded : {A : Type 0} → Option A → Reply A
decoded none = refused 400
decoded (some a) = replied a

-- 404 for a missing user, 500 for any other error.
abbrev pub found : {A : Type 0} → Result A → Reply A
found (ok a) = replied a
found (err Error.not_found) = refused 404
found (err e) = refused 500

abbrev pub or_500 : {A : Type 0} → Result A → Reply A
or_500 (ok a) = replied a
or_500 (err e) = refused 500

-- bcrypt
pub record Crypt : Type 0 where
  pub hash : Text → Result Text
  pub matches : Text → Text → Bool

pub record DatabasePermission : Type 0 where
  pub database_id : Text
  pub can_view : Bool
  pub can_create : Bool
  pub can_edit : Bool
  pub can_delete : Bool
  pub can_admin : Bool

pub record UpdateMePayload : Type 0 where
  pub old_password : Text
  pub new_password : Text

pub record CreateUserPayload : Type 0 where
  pub username : Text
  pub password : Text
  pub is_admin : Bool
  pub account_type : ℕ
  pub permissions : List DatabasePermission

pub record UpdateUserPayload : Type 0 where
  pub username : Text
  pub password : Text
  pub is_admin : Option Bool
  pub permissions : List DatabasePermission

pub record UserResponse : Type 0 where
  pub id : Text
  pub username : Text
  pub is_admin : Bool
  pub account_type : ℕ
  pub permissions : List DatabasePermission

abbrev pub flags_of : Text → ℕ → DatabasePermission
flags_of database_id roles = record {
  database_id = database_id;
  can_view = has_access roles access_view;
  can_create = has_access roles access_create;
  can_edit = has_access roles access_edit;
  can_delete = has_access roles access_delete;
  can_admin = has_access roles access_admin;
}

abbrev pub grant_of : DatabasePermission → ℕ
grant_of p = new_access_grant p.can_view p.can_create p.can_edit p.can_delete p.can_admin

abbrev pub response : User → List DatabasePermission → UserResponse
response u permissions = record {
  id = u.id;
  username = u.username;
  is_admin = u.is_admin;
  account_type = u.account_type;
  permissions = permissions;
}

-- The `seenDBs` of a payload.
unfoldable pub has_duplicate : List Text → List DatabasePermission → Bool
has_duplicate seen [] = false
has_duplicate seen (p ∷ ps) = one_of p.database_id seen || has_duplicate (p.database_id ∷ seen) ps
