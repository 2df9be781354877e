-- ===== src/Users/Requests/Saved.antt =====
-- internal/httpserver/userhandler/users.go: the permissions that UpdateUser writes.
use media_hub_oss.Prelude.{
  ◌≡◌, refl, ap, ◌∙◌, arith, Bool, true, false, not, ◌||◌, if◌then◌else◌, none, some, [], Result,
  ok, err, Error, Bool-cases, inl, inr,
}
use mathlib.Core.Path.{subst}
use media_hub_oss.Prelude.Text.{Text, text_eq, is_empty}
use media_hub_oss.Prelude.Keyed.{
  find_by, find_by-key, has_key, has_key-change, has_key-found, taken_by_other, change,
}
use media_hub_oss.Access.Accounts.{User}
use media_hub_oss.Users.{
  Tables, Driver, user_id_of, username_of, fits, roles_of, find_permission, get_user_permissions,
  update_user, get_user_by_id,
}
use media_hub_oss.Users.Replies.{
  Reply, replied, refuse_if, found, has_duplicate, Crypt, UpdateUserPayload, UserResponse,
}
use media_hub_oss.Users.Requests.{
  decided, revoke, Change, rename, set_password, set_admin, plan_update, apply_permissions,
  change_written, finish_update, patch_user,
}
use media_hub_oss.Users.Requests.Decisions.{
  get_user_by_id-Holds, rename-same, set_password-Holds, set_admin-id, Holds, held, refusal,
  Holds-any, Holds-bind, Holds-and, refuse_if-Holds,
}
use media_hub_oss.Users.Requests.Histories.{accepts}
use media_hub_oss.Users.Requests.Granting.{database_of, Takes, roles_after, get-apply}

plan_update-permissions :
    (d : Driver) (c : Crypt) (id : Text) (payload : UpdateUserPayload) (t : Tables)
    → Holds
        (λ change.
          (change.permissions ≡ payload.permissions)
          × (has_duplicate [] payload.permissions ≡ false))
        (plan_update d c id (some payload) t)
unfolding plan_update
plan_update-permissions d c id payload t = Holds-any (refuse_if (is_empty id) 400) _ λ u.
    Holds-any (refuse_if (not (d.is_valid_ulid id)) 400) _ λ u.
      Holds-bind (refuse_if (has_duplicate [] payload.permissions) 400) _
        (refuse_if-Holds (has_duplicate [] payload.permissions) 400)
        λ u once. Holds-any (found (get_user_by_id d id t)) _ λ a.
          Holds-any (set_password c payload.password (rename payload.username a).0) _
            λ k. Holds-any (set_admin d t payload.is_admin k.0) _ λ r. held (refl, once)

plan_update-found :
    (d : Driver) (c : Crypt) (id : Text) (payload : UpdateUserPayload) (t : Tables)
    → Holds
        (λ change. (change.user.id ≡ id) × (has_key user_id_of id t.users ≡ true))
        (plan_update d c id (some payload) t)
unfolding plan_update
plan_update-found d c id payload t = Holds-any (refuse_if (is_empty id) 400) _ λ u.
    Holds-any (refuse_if (not (d.is_valid_ulid id)) 400) _ λ u.
      Holds-any (refuse_if (has_duplicate [] payload.permissions) 400) _ λ u.
        Holds-bind (found (get_user_by_id d id t)) _ (get_user_by_id-Holds d t id) λ a here.
          let (named, role) = rename-same d t payload.username a in
          Holds-bind (set_password c payload.password (rename payload.username a).0) _
            (set_password-Holds d t c payload.password (rename payload.username a).0)
            λ k kept.
              Holds-bind (set_admin d t payload.is_admin k.0) _
                (set_admin-id d t payload.is_admin k.0)
                λ r same. held (
                  same ∙ kept.0 ∙ named ∙ find_by-key user_id_of id t.users a here,
                  has_key-found user_id_of id a t.users here,
                )

update_user-keeps :
    (d : Driver) (u : User) (t : Tables)
    → (has_key user_id_of u.id (update_user d u t).1.users ≡ has_key user_id_of u.id t.users)
      × ((update_user d u t).1.permissions ≡ t.permissions)
unfolding update_user
update_user-keeps d u t = elim (Bool-cases (not (has_key user_id_of u.id t.users))) [
  | inl e ↦ rw e (refl, refl)
  | inr e ↦ elim (Bool-cases (d.update_fails || not (fits u.username))) [
    | inl f ↦ rw (e, f) (refl, refl)
    | inr f ↦ elim (Bool-cases (taken_by_other user_id_of username_of u.id u.username t.users)) [
      | inl g ↦ rw (e, f, g) (refl, refl)
      | inr g ↦ rw (e, f, g) (has_key-change user_id_of u.id u t.users refl, refl)
    ]
  ]
]

-- The tables differ in neither the permissions nor in whether there is the user.
abbrev Agree : Text → Tables → Tables → Type 0
Agree id t t' =
    (has_key user_id_of id t'.users ≡ has_key user_id_of id t.users)
    × (t'.permissions ≡ t.permissions)

module _ (d : Driver) (c : Crypt) (id : Text) (payload : UpdateUserPayload) (t : Tables)
    (u db : Text) where
  abbrev Answered : Reply UserResponse × Tables → Type 0
  Answered r =
      get_user_permissions d u db r.1
      ≡ roles_after id u db (text_eq id u) (find_by database_of db payload.permissions)
          (get_user_permissions d u db t)

  abbrev Planned : Change → Type 0
  Planned change =
      ((change.permissions ≡ payload.permissions) × (has_duplicate [] payload.permissions ≡ false))
      × ((change.user.id ≡ id) × (has_key user_id_of id t.users ≡ true))

  plan_update-Planned : Holds Planned (plan_update d c id (some payload) t)
  plan_update-Planned =
      Holds-and (plan_update d c id (some payload) t) (plan_update-permissions d c id payload t)
        (plan_update-found d c id payload t)

  finish-Answered :
      (change : Change) (t' : Tables)
      → Planned change
      → Agree id t t'
      → Takes d payload.permissions
      → d.permission_fails db ≡ false
      → Answered (finish_update d id change t')
  unfolding get_user_permissions
  finish-Answered change t' ((same, once), (own, there)) (users, permissions) takes works =
      ap (λ ps. get_user_permissions d u db (apply_permissions d id ps t')) same
      ∙ get-apply d id payload.permissions t' u db once takes (users ∙ there) works
      ∙ ap (roles_after id u db (text_eq id u) (find_by database_of db payload.permissions)) (
          ap
            (λ ps.
              if d.permission_fails db then err Error.failure else elim (find_permission u db ps) [
                | none ↦ err Error.not_found
                | some p ↦ ok (record { user_id = u; database_id = db; roles = roles_of p })
              ])
            permissions)

  written-Answered :
      (change : Change) (r : Result User × Tables)
      → Planned change
      → Agree id t r.1
      → Takes d payload.permissions
      → d.permission_fails db ≡ false
      → accepts (change_written d id change r).0 ≡ true
      → Answered (change_written d id change r)
  unfolding revoke
  written-Answered change (err e, t') planned agree takes works h = absurd (ground (arith, h))
  written-Answered change (ok v, t') planned agree takes works h =
      finish-Answered change (if change.password_changed then revoke d id t' else t') planned
        (revoked change.password_changed) takes works
    where
      revoked : (b : Bool) → Agree id t (if b then revoke d id t' else t')
      revoked b = ground (arith, agree)

  -- After UpdateUser has succeeded, GetUserPermissions answers for the user and a database of the
  -- payload with the rights that the payload gives, or that there is none where it gives no right; for
  -- any other user or database it answers as before. The databases of the payload exist and their
  -- statements work.
  pub patch_user-get :
      Takes d payload.permissions
      → d.permission_fails db ≡ false
      → accepts (patch_user d c id (some payload) t).0 ≡ true
      → Answered (patch_user d c id (some payload) t)
  unfolding patch_user
  patch_user-get takes works h = split (plan_update d c id (some payload) t) plan_update-Planned h
    where
      write : Change → Reply UserResponse × Tables
      write change =
          if change.user_changed
          then change_written d id change (update_user d change.user t)
          else finish_update d id change t

      split :
          (r : Reply Change)
          → Holds Planned r
          → accepts (decided r t write).0 ≡ true
          → Answered (decided r t write)
      split _ refusal h = cc h
      split (replied change) (held planned) h = elim (Bool-cases change.user_changed) [
        | inr e ↦ rw e (finish-Answered change t planned (refl, refl) takes works)
        | inl e ↦
            let (users, permissions) = update_user-keeps d change.user t in
            let own : has_key user_id_of id (update_user d change.user t).1.users
                ≡ has_key user_id_of id t.users =
              subst
                (λ (i : Text).
                  has_key user_id_of i (update_user d change.user t).1.users
                  ≡ has_key user_id_of i t.users)
                planned.1.0 users in
            rw e (
              written-Answered change (update_user d change.user t) planned (own, permissions) takes
                works (ground (arith, h, e)))
      ]
