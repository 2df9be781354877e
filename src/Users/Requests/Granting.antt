-- ===== src/Users/Requests/Granting.antt =====
-- internal/httpserver/userhandler/users.go: a list of permissions, written one by one.
use media_hub_oss.Prelude.{
  ◌≡◌, refl, ap, ◌∙◌, arith, Bool, true, false, ◌==◌, if◌then◌else◌, Option, none, some, List, [],
  ◌∷◌, All, Result, ok, err, Error, Bool-cases, inl, inr,
}
use media_hub_oss.Prelude.Text.{Text, text_eq, text_eq→≡, one_of}
use media_hub_oss.Prelude.Keyed.{find_by, has_key, text_eq_sym}
use media_hub_oss.Access.Accounts.{UserPermission}
use media_hub_oss.Users.{
  PermissionRow, Tables, Driver, user_id_of, row_of, roles_of, find_permission,
  set_user_permissions, get_user_permissions,
}
use media_hub_oss.Users.Permissions.{
  same_pair, find_permission-upsert, find_permission-filter, roles_of-row_of,
  new_access_grant_masked,
}
use media_hub_oss.Users.Replies.{has_duplicate, DatabasePermission, grant_of}
use media_hub_oss.Users.Requests.{permission_for, apply_permissions}

-- The row that roles leave.
abbrev saved : UserPermission → Option PermissionRow
saved p = if p.roles == 0 then none else some (row_of p)

abbrev pub database_of : DatabasePermission → Text
database_of p = p.database_id

-- The database takes a permission.
abbrev pub Takes : Driver → List DatabasePermission → Type 0
Takes d ps =
    All (λ p. (d.permission_fails p.database_id ≡ false) × (d.database_exists p.database_id ≡ true))
      ps

find_permission-set :
    (d : Driver) (p : UserPermission) (t : Tables) (u db : Text)
    → d.permission_fails p.database_id ≡ false
    → d.database_exists p.database_id ≡ true
    → has_key user_id_of p.user_id t.users ≡ true
    → find_permission u db (set_user_permissions d p t).1.permissions ≡ (
        if same_pair p.user_id p.database_id u db
        then saved p
        else find_permission u db t.permissions)
unfolding set_user_permissions
find_permission-set d p t u db works exists there = elim (Bool-cases (p.roles == 0)) [
  | inl z ↦ rw (works, z) (find_permission-filter p.user_id p.database_id u db t.permissions)
  | inr z ↦ rw (works, z, there, exists) (find_permission-upsert u db (row_of p) t.permissions)
]

set_user_permissions-users :
    (d : Driver) (p : UserPermission) (t : Tables) → (set_user_permissions d p t).1.users ≡ t.users
unfolding set_user_permissions
set_user_permissions-users d p t = ground arith

-- A database that a list has seen does not come again.
not_again :
    (seen : List Text) (db : Text) (ps : List DatabasePermission)
    → has_duplicate seen ps ≡ false
    → one_of db seen ≡ true
    → find_by database_of db ps ≡ none
unfolding has_duplicate
not_again seen db [] h e = refl
not_again seen db (p ∷ ps) h e = elim (Bool-cases (text_eq p.database_id db)) [
  | inl f ↦
      let again : one_of p.database_id seen ≡ true =
        ap (λ i. one_of i seen) (text_eq→≡ p.database_id db f) ∙ e in
      absurd (ground (arith, again, h))
  | inr f ↦ rw f (not_again (p.database_id ∷ seen) db ps (ground (arith, h)) (ground (arith, e)))
]

-- What a list of permissions makes of the row of a user and a database.
abbrev granted :
    Text → Bool → Option DatabasePermission → Option PermissionRow → Option PermissionRow
granted id false asked old = old
granted id true none old = old
granted id true (some p) old = saved (permission_for id p)

find_permission-apply :
    (d : Driver) (id : Text) (seen : List Text) (ps : List DatabasePermission) (t : Tables)
    (u db : Text)
    → has_duplicate seen ps ≡ false
    → Takes d ps
    → has_key user_id_of id t.users ≡ true
    → find_permission u db (apply_permissions d id ps t).permissions
      ≡ granted id (text_eq id u) (find_by database_of db ps) (find_permission u db t.permissions)
unfolding apply_permissions has_duplicate
find_permission-apply d id seen [] t u db h works there = ground arith
find_permission-apply d id seen (p ∷ ps) t u db h works there =
    find_permission-apply d id (p.database_id ∷ seen) ps after u db (ground (arith, h)) works.1
      (ap (has_key user_id_of id) (set_user_permissions-users d (permission_for id p) t) ∙ there)
    ∙ ap (granted id (text_eq id u) (find_by database_of db ps))
        (find_permission-set d (permission_for id p) t u db works.0.0 works.0.1 there)
    ∙ meaning
  where
    after : Tables
    after = (set_user_permissions d (permission_for id p) t).1

    meaning :
        granted id (text_eq id u) (find_by database_of db ps) (
          if same_pair id p.database_id u db
          then saved (permission_for id p)
          else find_permission u db t.permissions)
        ≡ granted id
            (text_eq id u)
            (find_by database_of db (p ∷ ps))
            (find_permission u db t.permissions)
    meaning = elim (Bool-cases (text_eq id u)) [
      | inr e ↦ rw e refl
      | inl e ↦ elim (Bool-cases (text_eq p.database_id db)) [
        | inr f ↦ rw (e, f) refl
        | inl f ↦
            let once : find_by database_of db ps ≡ none =
              not_again (p.database_id ∷ seen) db ps (ground (arith, h))
                (ground (arith, text_eq_sym db p.database_id ∙ f)) in
            rw (e, f, once) refl
      ]
    ]

-- What GetUserPermissions answers after a list of permissions was written for the user `id`.
abbrev pub roles_after :
    Text
    → Text
    → Text
    → Bool
    → Option DatabasePermission
    → Result UserPermission
    → Result UserPermission
roles_after id u db false asked old = old
roles_after id u db true none old = old
roles_after id u db true (some p) old =
    if grant_of p == 0
    then err Error.not_found
    else ok (record { user_id = u; database_id = db; roles = grant_of p })

pub get-apply :
    (d : Driver) (id : Text) (ps : List DatabasePermission) (t : Tables) (u db : Text)
    → has_duplicate [] ps ≡ false
    → Takes d ps
    → has_key user_id_of id t.users ≡ true
    → d.permission_fails db ≡ false
    → get_user_permissions d u db (apply_permissions d id ps t)
      ≡ roles_after id u db
          (text_eq id u)
          (find_by database_of db ps)
          (get_user_permissions d u db t)
unfolding get_user_permissions
get-apply d id ps t u db once takes there works =
    rw (works, find_permission-apply d id [] ps t u db once takes there)
      (meaning (text_eq id u) (find_by database_of db ps))
  where
    answer : Option PermissionRow → Result UserPermission
    answer o = elim o [
      | none ↦ err Error.not_found
      | some p ↦ ok (record { user_id = u; database_id = db; roles = roles_of p })
    ]

    meaning :
        (same : Bool) (asked : Option DatabasePermission)
        → answer (granted id same asked (find_permission u db t.permissions))
          ≡ roles_after id u db same asked (answer (find_permission u db t.permissions))
    meaning false asked = refl
    meaning true none = refl
    meaning true (some p) = elim (Bool-cases (grant_of p == 0)) [
      | inl z ↦ rw z refl
      | inr z ↦ rw z (
          ap (λ r. ok (record { user_id = u; database_id = db; roles = r }))
            (roles_of-row_of (permission_for id p)
              ∙ new_access_grant_masked p.can_view p.can_create p.can_edit p.can_delete
                  p.can_admin))
    ]
