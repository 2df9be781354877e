-- ===== src/Examples/Requests.antt =====
-- Requests to the server: an account, a key that may only view, and a session.
use media_hub_oss.Prelude.{
  ℕ, ◌≡◌, ◌↔◌, refl, arith, true, false, none, some, [], ◌∷◌, ok, err, Error, ltb, if◌then◌else◌,
}
use media_hub_oss.Prelude.Text.{Text, codes}
use media_hub_oss.Access.{has_access}
use media_hub_oss.Access.Bits.{has_bit, has_access_iff}
use media_hub_oss.Access.Accounts.{
  User, ApiKey, account_type_string, parse_account_type, account_type_to_json,
  account_type_from_json,
}
use media_hub_oss.Access.Accounts.RoundTrip.{account_type_round_trip}
use media_hub_oss.Access.Holders.{
  Grants, Holder, user_permissions, has_permission, get_all_permissions,
}
use media_hub_oss.Access.Auth.{Outside, Request, cache_user_permissions, auth_middleware}
use media_hub_oss.Access.Auth.Rights.{MayReach, has_permission-MayReach, key_restricts}
use media_hub_oss.Access.Auth.Identity.{Identified, auth_middleware-Identified}

abbrev database : Text
database = codes "01J"

abbrev alice : User
alice = record {
  id = codes "U1";
  username = codes "alice";
  is_admin = false;
  password_hash = codes "hash";
  account_type = 0;
}

abbrev view_key : ApiKey
view_key = record {
  id = codes "K1";
  user_id = codes "U1";
  name = codes "viewer";
  key_hash = codes "hash";
  key_hint = codes "srv_...hash";
  scope = 1;
  created_at = some 5;
  expires_at = some 2_000;
  last_used_at = none;
}

-- Alice may view and edit.
abbrev grants : Grants
grants = record {
  user_permissions = λ id. ok (record { user_id = id; database_id = database; roles = 5 } ∷ []);
  databases = ok (database ∷ []);
}

abbrev pub outside : Outside
outside = record {
  now = 1_000;
  user_by_id = λ id. err Error.not_found;
  user_by_username = λ name. err Error.not_found;
  key_with_owner = λ hash. ok (view_key, alice);
  parse_jwt = λ token. err Error.failure;
  decode_base64 = λ s. none;
  sha256_hex = λ s. s;
  password_matches = λ hash password. false;
}

abbrev with_key : Request
with_key = record { authorization = codes "Bearer srv_x"; query_token = [] }

abbrev viewer : Holder
viewer = cache_user_permissions alice view_key true

has_access_iff_example :
    (has_access 5 4 ≡ true) ↔ ((k : ℕ) → has_bit k 4 ≡ true → has_bit k 5 ≡ true)
has_access_iff_example = has_access_iff 5 4

account_type_round_trip_example :
    (parse_account_type (account_type_string 2) ≡ ok (if ltb 2 3 then 2 else 0))
    × (account_type_from_json (account_type_to_json 2) ≡ ok (if ltb 2 3 then 2 else 0))
account_type_round_trip_example = account_type_round_trip 2

all_of_alice :
    get_all_permissions grants (user_permissions (codes "U1") 1) ≡ ok ((database, 1) ∷ [])
unfolding get_all_permissions
all_of_alice = refl

has_permission-MayReach_example :
    (has_permission grants viewer database 1 ≡ true)
    ↔ MayReach grants alice view_key true database 1
has_permission-MayReach_example = has_permission-MayReach grants alice view_key true database 1

viewer_views : has_permission grants viewer database 1 ≡ true
unfolding has_permission cache_user_permissions
viewer_views = refl

key_restricts_example :
    has_permission grants (cache_user_permissions alice view_key false) database 1 ≡ true
key_restricts_example = key_restricts grants alice view_key database 1 (omega arith) viewer_views

let_in : auth_middleware outside with_key ≡ ok (alice, viewer)
unfolding auth_middleware
let_in = refl

auth_middleware-Identified_example : Identified outside with_key alice viewer
auth_middleware-Identified_example = auth_middleware-Identified outside with_key alice viewer let_in
