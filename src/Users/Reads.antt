-- ===== src/Users/Reads.antt =====
-- internal/httpserver/userhandler/users.go: the handlers that only read.
use media_hub_oss.Prelude.{ℕ, not, if◌then◌else◌, Option, none, some, List, [], ◌∷◌, map, ok, err}
use media_hub_oss.Prelude.Text.{Text, is_empty}
use media_hub_oss.Access.Accounts.{User, parse_account_type}
use media_hub_oss.Access.Holders.{Grants, Holder, is_global_admin, get_all_permissions}
use media_hub_oss.Users.{Tables, Driver, get_users, get_user_by_id, get_all_user_permissions}
use media_hub_oss.Users.Replies.{
  Reply, refused, replied, ◌>>=◌, ◌>>◌, refuse_if, found, or_500, DatabasePermission, UserResponse,
  flags_of, response,
}

-- The permissions shown of a user, none for an admin and none where they cannot be read.
unfoldable pub shown_permissions : Driver → User → Tables → List DatabasePermission
unfolding get_all_user_permissions
shown_permissions d u t = if u.is_admin then [] else elim (get_all_user_permissions d u.id t) [
  | err e ↦ []
  | ok ps ↦ map (λ p. flags_of p.database_id p.roles) ps
]

unfoldable pub get_me : Grants → User → Holder → Reply UserResponse
unfolding is_global_admin get_all_permissions
get_me grants user holder =
    let admin = is_global_admin holder in
    let shown : List DatabasePermission → UserResponse =
      λ ps. record (response user ps) { is_admin = admin } in
    if admin
    then replied (shown [])
    else or_500 (get_all_permissions grants holder) >>= λ perms.
        replied (shown (map (λ e. flags_of e.0 e.1) perms))

-- A user whose permissions cannot be read is left out.
unfoldable pub list_users : Driver → List User → Tables → List UserResponse
unfolding get_all_user_permissions
list_users d [] t = []
list_users d (u ∷ us) t =
    let rest = list_users d us t in
    if u.is_admin then response u [] ∷ rest else elim (get_all_user_permissions d u.id t) [
      | err e ↦ rest
      | ok ps ↦ response u (map (λ p. flags_of p.database_id p.roles) ps) ∷ rest
    ]

abbrev pub type_filter : Text → Reply (Option ℕ)
type_filter s =
    if is_empty s
    then replied none
    else elim (parse_account_type s) [ err e ↦ refused 400 | ok a ↦ replied (some a) ]

-- GetUsers
unfoldable pub get_user_list : Driver → Text → Tables → Reply (List UserResponse)
unfolding parse_account_type get_users list_users
get_user_list d account_type t = do
  wanted ← type_filter account_type
  us ← or_500 (get_users d wanted t)
  replied (list_users d us t)

unfoldable pub get_user : Driver → Text → Tables → Reply UserResponse
unfolding get_user_by_id shown_permissions
get_user d id t = do
  refuse_if (is_empty id) 400
  refuse_if (not (d.is_valid_ulid id)) 400
  user ← found (get_user_by_id d id t)
  replied (response user (shown_permissions d user t))
