-- ===== src/Access/Holders.antt =====
-- internal/httpserver/utils/permissions.go: what a request may do. A holder asks the repository once;
-- `Grants` is what the repository answers in that request.
pub mod Rights
use Prim.Native.Nat.{bit_and}
use media_hub_oss.Prelude.{
  ℕ, Bool, true, false, if◌then◌else◌, Option, none, some, List, [], ◌∷◌, Result, ok, err, Error,
}
use media_hub_oss.Prelude.Text.{Text, text_eq}
use media_hub_oss.Access.{has_any}
use media_hub_oss.Access.Accounts.{UserPermission}

pub record Grants : Type 0 where
  -- GetAllUserPermissions, GetDatabases
  pub user_permissions : Text → Result (List UserPermission)
  pub databases : Result (List Text)

pub data Holder : Type 0 where
  global_admin : (user_id : Text) → Holder
  api_key_of_admin : (user_id : Text) (scope : ℕ) → Holder
  user_permissions : (user_id : Text) (scope : ℕ) → Holder

-- A Go map as an association list, `m[k] = v` and `v, exists := m[k]`.
abbrev pub put : Text → ℕ → List (Text × ℕ) → List (Text × ℕ)
put k v [] = (k, v) ∷ []
put k v ((k', v') ∷ m) = if text_eq k k' then (k, v) ∷ m else (k', v') ∷ put k v m

abbrev pub get : Text → List (Text × ℕ) → Option ℕ
get k [] = none
get k ((k', v) ∷ m) = if text_eq k k' then some v else get k m

-- loadPermissions: a failure leaves the map empty.
abbrev pub fill : List UserPermission → List (Text × ℕ) → List (Text × ℕ)
fill [] m = m
fill (p ∷ ps) m = fill ps (put p.database_id p.roles m)

unfoldable pub load_permissions : Grants → Text → List (Text × ℕ)
load_permissions grants user_id = elim (grants.user_permissions user_id) [
  | err e ↦ []
  | ok ps ↦ fill ps []
]

unfoldable pub is_global_admin : Holder → Bool
is_global_admin (global_admin id) = true
is_global_admin (api_key_of_admin id scope) = false
is_global_admin (user_permissions id scope) = false

unfoldable pub get_user_ulid : Holder → Text
get_user_ulid (global_admin id) = id
get_user_ulid (api_key_of_admin id scope) = id
get_user_ulid (user_permissions id scope) = id

-- `u.Scope & perm & ag != 0`, where the database has an entry.
abbrev pub allows : ℕ → ℕ → Option ℕ → Bool
allows scope ag none = false
allows scope ag (some perm) = has_any (bit_and scope perm) ag

unfoldable pub has_permission : Grants → Holder → Text → ℕ → Bool
unfolding load_permissions
has_permission grants (global_admin id) database ag = true
has_permission grants (api_key_of_admin id scope) database ag = has_any scope ag
has_permission grants (user_permissions id scope) database ag =
    allows scope ag (get database (load_permissions grants id))

abbrev pub scoped : ℕ → List (Text × ℕ) → List (Text × ℕ)
scoped scope [] = []
scoped scope ((k, perm) ∷ m) = (k, bit_and perm scope) ∷ scoped scope m

abbrev pub with_scope : ℕ → List Text → List (Text × ℕ) → List (Text × ℕ)
with_scope scope [] m = m
with_scope scope (d ∷ ds) m = with_scope scope ds (put d scope m)

unfoldable pub get_all_permissions : Grants → Holder → Result (List (Text × ℕ))
unfolding load_permissions
get_all_permissions grants (global_admin id) = ok []
get_all_permissions grants (api_key_of_admin id scope) = elim grants.databases [
  | err e ↦ err e
  | ok ds ↦ ok (with_scope scope ds [])
]
get_all_permissions grants (user_permissions id scope) =
    ok (scoped scope (load_permissions grants id))
