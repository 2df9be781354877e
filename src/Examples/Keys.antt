-- ===== src/Examples/Keys.antt =====
-- API keys: a user makes one and logs in with it, another user's stays.
use media_hub_oss.Prelude.{◌≡◌, refl, true, false, none, some, [], ◌∷◌, ok}
use media_hub_oss.Prelude.Text.{codes}
use media_hub_oss.Prelude.Keyed.{find_by}
use media_hub_oss.Access.Auth.{validate_api_key}
use media_hub_oss.ApiKeys.{KeyRow, KeyTable, KeyEnv, key_id_of}
use media_hub_oss.ApiKeys.Requests.{CreateApiKeyPayload, Secrets, ApiKeyResponse, post_key}
use media_hub_oss.ApiKeys.Requests.Login.{backed, issued_key, post_key-login}
use media_hub_oss.ApiKeys.Requests.Others.{delete, serve_key, serve_key-keeps}
use media_hub_oss.Examples.People.{bob, well, tables}
use media_hub_oss.Examples.Requests.{outside}

abbrev env : KeyEnv
env = record {
  now = 7_000_000;
  new_ulid = codes "K2";
  driver = well;
  tables = tables;
  query_fails = false;
  list_fails = false;
  exec_fails = false;
  result_fails = false;
}

abbrev secrets : Secrets
secrets = record { random_secret = ok (codes "abcdef"); sha256_hex = λ s. s }

abbrev root_key : KeyRow
root_key = record {
  id = codes "K1";
  user_id = codes "U1";
  name = codes "backup";
  key_hash = codes "123456";
  key_hint = codes "srv_...3456";
  scope_view = true;
  scope_create = false;
  scope_edit = false;
  scope_delete = false;
  scope_admin = false;
  created_at = 1;
  expires_at = none;
  last_used_at = none;
}

abbrev keys : KeyTable
keys = root_key ∷ []

abbrev viewer : CreateApiKeyPayload
viewer = record {
  name = codes "viewer";
  expires_at = some 9_000;
  scope_view = true;
  scope_create = false;
  scope_edit = true;
  scope_delete = false;
  scope_admin = false;
}

-- What the creation answers.
abbrev viewer_response : ApiKeyResponse
viewer_response = record {
  id = codes "K2";
  name = codes "viewer";
  key_hint = codes "srv_...cdef";
  scope_view = true;
  scope_create = false;
  scope_edit = true;
  scope_delete = false;
  scope_admin = false;
  created_at = 7;
  expires_at = some 9_000;
  last_used_at = none;
}

post_key-login_example :
    validate_api_key
      (backed outside secrets env (post_key env secrets bob (codes "U2") (some viewer) keys).1)
      (codes "srv_abcdef")
    ≡ ok (bob, issued_key env secrets bob (codes "U2") viewer (codes "abcdef"))
unfolding post_key
post_key-login_example =
    post_key-login env secrets bob (codes "U2") viewer outside env bob keys viewer_response
      (codes "srv_abcdef") refl refl refl refl

serve_key-keeps_example :
    find_by key_id_of (codes "K1") (serve_key env secrets (codes "U2") (delete (codes "K1")) keys)
    ≡ some root_key
serve_key-keeps_example =
    serve_key-keeps env secrets (codes "U2") (delete (codes "K1")) root_key keys refl refl
