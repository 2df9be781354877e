-- ===== src/ApiKeys/Requests.antt =====
-- internal/httpserver/userhandler/api_keys.go: the handlers of /api/user/{user_ulid}/keys.
-- `user` is who the request is; `user_id` and `key_id` are of the path.
pub mod Login
pub mod Others
use media_hub_oss.Prelude.{
  ℕ, ◌-◌, Bool, true, false, not, if◌then◌else◌, Option, none, some, List, [], ◌∷◌, ◌++◌, map, drop,
  length, Result, ok, err, Error,
}
use media_hub_oss.Prelude.Text.{Text, codes, text_eq, is_empty}
use media_hub_oss.Prelude.Keyed.{find_by}
use media_hub_oss.Access.{
  has_access, new_access_grant, access_view, access_create, access_edit, access_delete,
  access_admin,
}
use media_hub_oss.Access.Accounts.{User, ApiKey}
use media_hub_oss.Users.{user_id_of, get_user_by_id, get_users}
use media_hub_oss.Users.Replies.{
  Reply, refused, replied, ◌>>=◌, ◌>>◌, refuse_if, decoded, found, or_500,
}
use media_hub_oss.ApiKeys.{
  KeyTable, KeyEnv, to_millis, from_millis, create_api_key, get_api_key_by_id,
  get_api_keys_by_user_id, get_all_api_keys, update_api_key, delete_api_key,
}

-- Times in milliseconds, 0 for a key that was never created.
pub record ApiKeyResponse : Type 0 where
  pub id : Text
  pub name : Text
  pub key_hint : Text
  pub scope_view : Bool
  pub scope_create : Bool
  pub scope_edit : Bool
  pub scope_delete : Bool
  pub scope_admin : Bool
  pub created_at : ℕ
  pub expires_at : Option ℕ
  pub last_used_at : Option ℕ

pub record CreateApiKeyPayload : Type 0 where
  pub name : Text
  pub expires_at : Option ℕ
  pub scope_view : Bool
  pub scope_create : Bool
  pub scope_edit : Bool
  pub scope_delete : Bool
  pub scope_admin : Bool

-- `expires_at` is none where the body does not have it, and `some none` for null.
pub record UpdateApiKeyPayload : Type 0 where
  pub name : Option Text
  pub expires_at : Option (Option ℕ)
  pub scope_view : Option Bool
  pub scope_create : Option Bool
  pub scope_edit : Option Bool
  pub scope_delete : Option Bool
  pub scope_admin : Option Bool

abbrev pub millis_of : Option ℕ → Option ℕ
millis_of none = none
millis_of (some t) = some (to_millis t)

abbrev pub or_zero : Option ℕ → ℕ
or_zero none = 0
or_zero (some n) = n

unfoldable pub map_to_api_key_response : ApiKey → ApiKeyResponse
unfolding has_access
map_to_api_key_response k = record {
  id = k.id;
  name = k.name;
  key_hint = k.key_hint;
  scope_view = has_access k.scope access_view;
  scope_create = has_access k.scope access_create;
  scope_edit = has_access k.scope access_edit;
  scope_delete = has_access k.scope access_delete;
  scope_admin = has_access k.scope access_admin;
  created_at = or_zero (millis_of k.created_at);
  expires_at = millis_of k.expires_at;
  last_used_at = millis_of k.last_used_at;
}

-- The user of the path, without a query where it is who asks.
abbrev pub target_user : KeyEnv → User → Text → Reply User
target_user env user user_id =
    if text_eq user.id user_id
    then replied user
    else found (get_user_by_id env.driver user_id env.tables)

-- crypto/rand with encoding/hex, and SHA-256
pub record Secrets : Type 0 where
  pub random_secret : Result Text
  pub sha256_hex : Text → Text

abbrev pub time_of_payload : Option ℕ → Option ℕ
time_of_payload none = none
time_of_payload (some ms) = some (from_millis ms)

-- The secret and the key that CreateAPIKey makes of it.
unfoldable pub new_key :
    KeyEnv → Secrets → User → Text → Option CreateApiKeyPayload → Reply (Text × ApiKey)
unfolding get_user_by_id new_access_grant
new_key env s user user_id body = do
  target ← target_user env user user_id
  payload ← decoded body
  refuse_if (is_empty payload.name) 400
  secret ← or_500 s.random_secret
  replied (
    secret,
    record {
      id = env.new_ulid;
      user_id = target.id;
      name = payload.name;
      key_hash = s.sha256_hex secret;
      key_hint = codes "srv_..." ++ drop (length secret - 4) secret;
      scope =
          new_access_grant payload.scope_view payload.scope_create payload.scope_edit
            payload.scope_delete payload.scope_admin;
      created_at = some env.now;
      expires_at = time_of_payload payload.expires_at;
      last_used_at = none;
    },
  )

abbrev pub key_created : Text → Result ApiKey × KeyTable → Reply (ApiKeyResponse × Text) × KeyTable
key_created secret (err e, t) = (refused 500, t)
key_created secret (ok k, t) = (replied (map_to_api_key_response k, codes "srv_" ++ secret), t)

abbrev pub created_from :
    KeyEnv → Reply (Text × ApiKey) → KeyTable → Reply (ApiKeyResponse × Text) × KeyTable
created_from env (refused status) t = (refused status, t)
created_from env (replied (secret, k)) t = key_created secret (create_api_key env k t)

-- CreateAPIKey: the key's metadata and its token.
unfoldable pub post_key :
    KeyEnv
    → Secrets
    → User
    → Text
    → Option CreateApiKeyPayload
    → KeyTable
    → Reply (ApiKeyResponse × Text) × KeyTable
unfolding new_key create_api_key map_to_api_key_response
post_key env s user user_id body t = created_from env (new_key env s user user_id body) t

-- GetAPIKeys
unfoldable pub get_keys : KeyEnv → User → Text → KeyTable → Reply (List ApiKeyResponse)
unfolding get_user_by_id get_api_keys_by_user_id map_to_api_key_response
get_keys env user user_id t = do
  target ← target_user env user user_id
  keys ← or_500 (get_api_keys_by_user_id env user_id t)
  replied (map map_to_api_key_response keys)

-- The key of the path, if it is the user's.
unfoldable pub own_key : KeyEnv → Text → Text → KeyTable → Reply ApiKey
unfolding get_api_key_by_id
own_key env user_id key_id t = do
  key ← found (get_api_key_by_id env key_id t)
  refuse_if (not (text_eq key.user_id user_id)) 404
  replied key

-- GetAPIKey
unfoldable pub get_key : KeyEnv → Text → Text → KeyTable → Reply ApiKeyResponse
unfolding own_key map_to_api_key_response
get_key env user_id key_id t = do
  key ← own_key env user_id key_id t
  replied (map_to_api_key_response key)

abbrev pub or_old {ℓ} : {A : Type ℓ} → Option A → A → A
or_old none old = old
or_old (some new) old = new

abbrev pub new_expiry : Option (Option ℕ) → Option ℕ → Option ℕ
new_expiry none old = old
new_expiry (some none) old = none
new_expiry (some (some ms)) old = some (from_millis ms)

unfoldable pub changed_key : UpdateApiKeyPayload → ApiKey → ApiKey
unfolding has_access new_access_grant
changed_key p k = record k {
  name = or_old p.name k.name;
  scope =
      new_access_grant (or_old p.scope_view (has_access k.scope access_view))
        (or_old p.scope_create (has_access k.scope access_create))
        (or_old p.scope_edit (has_access k.scope access_edit))
        (or_old p.scope_delete (has_access k.scope access_delete))
        (or_old p.scope_admin (has_access k.scope access_admin));
  expires_at = new_expiry p.expires_at k.expires_at;
}

abbrev pub key_updated : Result ApiKey × KeyTable → Reply ApiKeyResponse × KeyTable
key_updated (err e, t) = (refused 500, t)
key_updated (ok k, t) = (replied (map_to_api_key_response k), t)

-- UpdateAPIKey, up to the statement that writes.
abbrev pub update_plan : KeyEnv → Text → Text → Option UpdateApiKeyPayload → KeyTable → Reply ApiKey
update_plan env user_id key_id body t = do
  key ← own_key env user_id key_id t
  payload ← decoded body
  replied (changed_key payload key)

abbrev pub updated_from : KeyEnv → Reply ApiKey → KeyTable → Reply ApiKeyResponse × KeyTable
updated_from env (refused status) t = (refused status, t)
updated_from env (replied k) t = key_updated (update_api_key env k t)

-- UpdateAPIKey
unfoldable pub patch_key :
    KeyEnv → Text → Text → Option UpdateApiKeyPayload → KeyTable → Reply ApiKeyResponse × KeyTable
unfolding own_key changed_key update_api_key map_to_api_key_response
patch_key env user_id key_id body t = updated_from env (update_plan env user_id key_id body t) t

abbrev pub key_deleted : ApiKey → Result (Unit {0}) × KeyTable → Reply (Text × Text) × KeyTable
key_deleted k (err e, t) = (refused 500, t)
key_deleted k (ok done, t) = (replied (k.name, k.id), t)

abbrev pub deleted_from : KeyEnv → Text → Reply ApiKey → KeyTable → Reply (Text × Text) × KeyTable
deleted_from env key_id (refused status) t = (refused status, t)
deleted_from env key_id (replied k) t = key_deleted k (delete_api_key env key_id t)

-- DeleteAPIKey: the name and the id of its message.
unfoldable pub remove_key : KeyEnv → Text → Text → KeyTable → Reply (Text × Text) × KeyTable
unfolding own_key delete_api_key
remove_key env user_id key_id t = deleted_from env key_id (own_key env user_id key_id t) t

-- A key is shown with its owner, and left out where the owner cannot be found.
unfoldable pub with_owners : KeyEnv → List User → List ApiKey → List (ApiKeyResponse × User)
unfolding get_user_by_id map_to_api_key_response
with_owners env users [] = []
with_owners env users (k ∷ ks) =
    let rest = with_owners env users ks in
    elim (find_by user_id_of k.user_id users) [
      | some u ↦ (map_to_api_key_response k, u) ∷ rest
      | none ↦ elim (get_user_by_id env.driver k.user_id env.tables) [
        | err e ↦ rest
        | ok u ↦ (map_to_api_key_response k, u) ∷ rest
      ]
    ]

-- GetAllAPIKeys
unfoldable pub get_all_keys : KeyEnv → KeyTable → Reply (List (ApiKeyResponse × User))
unfolding get_all_api_keys get_users with_owners
get_all_keys env t = do
  keys ← or_500 (get_all_api_keys env t)
  users ← or_500 (get_users env.driver none env.tables)
  replied (with_owners env users keys)
