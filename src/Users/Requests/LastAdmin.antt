-- ===== src/Users/Requests/LastAdmin.antt =====
-- internal/httpserver/userhandler/users.go: what the handlers keep of the users' table.
use media_hub_oss.Prelude.{
  ◌≤◌, ◌≡◌, refl, sym, ap, ◌∙◌, arith, Bool, true, false, if◌then◌else◌, Option, none, some, List,
  [], ◌∷◌, Result, ok, err, Error, Bool-cases, inl, inr, ◌==◌,
}
use mathlib.Core.Path.{subst}
use media_hub_oss.Prelude.Text.{Text}
use media_hub_oss.Prelude.Keyed.{find_by, find_by-key}
use media_hub_oss.Access.Accounts.{User, UserPermission}
use media_hub_oss.Users.{
  Tables, Driver, user_id_of, set_user_permissions, create_user, update_user, delete_user,
}
use media_hub_oss.Users.Accounts.{
  IsValid, admins, create_user-Grows, update_user-IsValid, delete_user-IsValid,
}
use media_hub_oss.Users.Replies.{
  Reply, refused, replied, Crypt, DatabasePermission, UpdateMePayload, CreateUserPayload,
  UpdateUserPayload, grant_of,
}
use media_hub_oss.Users.Requests.{
  revoke, new_me, me_written, update_me, new_user, permission_for, add_permissions, user_written,
  post_user, Change, plan_update, apply_permissions, change_written, finish_update, patch_user,
  plan_delete, deletion_written, remove_user, decided, applied_next,
}
use media_hub_oss.Users.Requests.Histories.{
  Request, create, update, delete, update_own, serve_own, serve, serve_all,
}
use media_hub_oss.Users.Requests.Decisions.{
  Holds, held, refusal, plan_update-Holds, plan_delete-Holds, new_me-Holds, Leaves,
}

set_user_permissions-users :
    (d : Driver) (p : UserPermission) (t : Tables) → (set_user_permissions d p t).1.users ≡ t.users
unfolding set_user_permissions
set_user_permissions-users d p t = ground arith

pub applied_next-tables :
    (p : DatabasePermission) (skipped : Bool) (attempt : Result (Unit {0}))
    (later : List DatabasePermission × Tables)
    → (applied_next p skipped attempt later).1 ≡ later.1
applied_next-tables p true attempt later = refl
applied_next-tables p false (err e) later = refl
applied_next-tables p false (ok done) later = refl

add_permissions-users :
    (d : Driver) (id : Text) (ps : List DatabasePermission) (t : Tables)
    → (add_permissions d id ps t).1.users ≡ t.users
unfolding add_permissions
add_permissions-users d id [] t = refl
add_permissions-users d id (p ∷ ps) t =
    ap (λ (x : Tables). x.users)
      (applied_next-tables p (grant_of p == 0) attempt.0
        (add_permissions d id ps (next (grant_of p == 0))))
    ∙ add_permissions-users d id ps (next (grant_of p == 0))
    ∙ same (grant_of p == 0)
  where
    attempt : Result (Unit {0}) × Tables
    attempt = set_user_permissions d (permission_for id p) t

    next : Bool → Tables
    next skipped = if skipped then t else attempt.1

    same : (skipped : Bool) → (next skipped).users ≡ t.users
    same true = refl
    same false = set_user_permissions-users d (permission_for id p) t

apply_permissions-users :
    (d : Driver) (id : Text) (ps : List DatabasePermission) (t : Tables)
    → (apply_permissions d id ps t).users ≡ t.users
unfolding apply_permissions
apply_permissions-users d id [] t = refl
apply_permissions-users d id (p ∷ ps) t =
    apply_permissions-users d id ps (set_user_permissions d (permission_for id p) t).1
    ∙ set_user_permissions-users d (permission_for id p) t

revoke-users : (d : Driver) (id : Text) (t : Tables) → (revoke d id t).users ≡ t.users
unfolding revoke
revoke-users d id t = refl

-- The names and ids are unique, and there is an admin.
abbrev pub Kept : List User → Type 0
Kept us = IsValid us × (1 ≤ admins us)

kept : {us vs : List User} → us ≡ vs → Kept vs → Kept us
kept e k = subst (λ (us : List User). Kept us) (sym e) k

user_written-Kept :
    (d : Driver) (ps : List DatabasePermission) (r : Result User × Tables)
    → Kept r.1.users
    → Kept (user_written d ps r).1.users
user_written-Kept d ps (err e, t) k = kept (ap (λ (x : Tables). x.users) (refusal_keeps e)) k
  where
    refusal_keeps : (e : Error) → (user_written d ps (err e, t)).1 ≡ t
    refusal_keeps e = ground arith
user_written-Kept d ps (ok u, t) k = kept (add_permissions-users d u.id ps t) k

decided-Kept :
    {A B : Type 0} {Q : A → Type 0} (r : Reply A) (t : Tables) (write : A → Reply B × Tables)
    → Holds Q r
    → Kept t.users
    → ((a : A) → Q a → Kept (write a).1.users)
    → Kept (decided r t write).1.users
decided-Kept _ t write refusal k h = k
decided-Kept _ t write (held q) k h = h _ q

-- Of which nothing more is asked.
decision : {A : Type 0} (r : Reply A) → Holds (λ a. Unit {0}) r
decision (refused status) = refusal
decision (replied a) = held tt

post_user-Kept :
    (d : Driver) (c : Crypt) (body : Option CreateUserPayload) (t : Tables)
    → Kept t.users
    → Kept (post_user d c body t).1.users
unfolding post_user
post_user-Kept d c body t k =
    decided-Kept (new_user c body) t _ (decision (new_user c body)) k λ u any.
      let (valid, more) = create_user-Grows d u.0 t k.0 in
      user_written-Kept d u.1 (create_user d u.0 t) (valid, omega (arith, more, k.1))

change_written-users :
    (d : Driver) (id : Text) (change : Change) (r : Result User × Tables)
    → (change_written d id change r).1.users ≡ r.1.users
change_written-users d id change (err e, t) = ap (λ (x : Tables). x.users) (refusal_keeps e)
  where
    refusal_keeps : (e : Error) → (change_written d id change (err e, t)).1 ≡ t
    refusal_keeps e = ground arith
change_written-users d id change (ok u, t) =
    let after = if change.password_changed then revoke d id t else t in
    apply_permissions-users d id change.permissions after ∙ ground (arith, revoke-users d id t)

patch_user-Kept :
    (d : Driver) (c : Crypt) (id : Text) (body : Option UpdateUserPayload) (t : Tables)
    → Kept t.users
    → Kept (patch_user d c id body t).1.users
unfolding patch_user
patch_user-Kept d c id body t k =
    decided-Kept (plan_update d c id body t) t _ (plan_update-Holds d t c id body k.1) k write
  where
    write :
        (change : Change)
        → (a : User) × ((find_by user_id_of id t.users ≡ some a) × Leaves d t a change.user)
        → Kept
            (if change.user_changed
              then change_written d id change (update_user d change.user t)
              else finish_update d id change t).1.users
    write change (a, (here, leaves)) = elim (Bool-cases change.user_changed) [
      | inl e ↦
          let same = leaves.0 ∙ find_by-key user_id_of id t.users a here in
          let found = ap (λ i. find_by user_id_of i t.users) same ∙ here in
          rw e (
            kept (change_written-users d id change (update_user d change.user t))
              (update_user-IsValid d change.user a t k.0 found k.1 leaves.1))
      | inr e ↦ rw e (kept (apply_permissions-users d id change.permissions t) k)
    ]

remove_user-Kept :
    (d : Driver) (id : Text) (t : Tables) → Kept t.users → Kept (remove_user d id t).1.users
unfolding remove_user
remove_user-Kept d id t k =
    decided-Kept (plan_delete d id t) t _ (plan_delete-Holds d t id k.1) k λ a (here, left).
      kept (ap (λ (x : Tables). x.users) (written a.username (delete_user d id t)))
        (delete_user-IsValid d id a t k.0 here left)
  where
    written : (name : Text) (r : Result (Unit {0}) × Tables) → (deletion_written id name r).1 ≡ r.1
    written name (err e, t) = refl
    written name (ok done, t) = refl

update_me-Kept :
    (d : Driver) (c : Crypt) (body : Option UpdateMePayload) (u : User) (t : Tables)
    → find_by user_id_of u.id t.users ≡ some u
    → Kept t.users
    → Kept (update_me d c body u t).1.users
unfolding update_me
update_me-Kept d c body u t here k =
    decided-Kept (new_me c body u) t _ (new_me-Holds c body u) k λ v (same, admin).
      kept (written (update_user d v t)) (
        update_user-IsValid d v u t k.0 (ap (λ i. find_by user_id_of i t.users) same ∙ here) k.1
          (rw admin (omega (arith, k.1))))
  where
    written : (r : Result User × Tables) → (me_written d u.id r).1.users ≡ r.1.users
    written (err e, t) = refl
    written (ok v, t) = revoke-users d u.id t

serve-Kept :
    (d : Driver) (c : Crypt) (r : Request) (t : Tables) → Kept t.users → Kept (serve d c r t).users
serve-Kept d c (create body) t k = post_user-Kept d c body t k
serve-Kept d c (update id body) t k = patch_user-Kept d c id body t k
serve-Kept d c (delete id) t k = remove_user-Kept d id t k
serve-Kept d c (update_own id body) t k = split (find_by user_id_of id t.users) refl
  where
    split :
        (o : Option User) → find_by user_id_of id t.users ≡ o → Kept (serve_own d c body o t).users
    split none e = k
    split (some u) e =
        update_me-Kept d c body u t
          (ap (λ i. find_by user_id_of i t.users) (find_by-key user_id_of id t.users u e) ∙ e) k

-- Any requests to create, update and delete users or change one's own password, one after another,
-- with any of their statements failing, leave the users with unique ids and names and with an admin
-- among them, if there was one before.
pub serve_all-Kept :
    (c : Crypt) (rs : List (Driver × Request)) (t : Tables)
    → Kept t.users
    → Kept (serve_all c rs t).users
serve_all-Kept c [] t k = k
serve_all-Kept c ((d, r) ∷ rs) t k = serve_all-Kept c rs (serve d c r t) (serve-Kept d c r t k)
