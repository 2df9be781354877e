-- ===== src/Users/Requests/Decisions.antt =====
-- internal/httpserver/userhandler/users.go: what the handlers have decided before they write.
use media_hub_oss.Prelude.{
  ℕ, ◌+◌, ◌≤◌, ◌≡◌, refl, sym, ◌∙◌, arith, Bool, true, false, not, ◌&&◌, ◌||◌, leb, if◌then◌else◌,
  Option, none, some, [], Bool-cases, Option-cases, inl, inr,
}
use mathlib.Core.Path.{subst}
use media_hub_oss.Prelude.Text.{Text, text_eq, is_empty}
use media_hub_oss.Prelude.Keyed.{find_by, one}
use media_hub_oss.Access.Accounts.{User, is_oidc, is_service_account}
use media_hub_oss.Users.{Tables, Driver, user_id_of, get_user_by_id, count_admin_users}
use media_hub_oss.Users.Accounts.{admins}
use media_hub_oss.Users.Replies.{
  Reply, refused, replied, ◌>>=◌, refuse_if, decoded, found, or_500, Crypt, UpdateMePayload,
  UpdateUserPayload, has_duplicate,
}
use media_hub_oss.Users.Requests.{
  new_me, rename, set_password, set_admin, not_last_admin, plan_update, plan_delete,
}

-- What a handler has decided has a property, unless it refuses.
pub data Holds {A : Type 0} (Q : A → Type 0) : Reply A → Type 0 where
  held : {a : A} → Q a → Holds Q (replied a)
  refusal : {status : ℕ} → Holds Q (refused status)

module _ {B : Type 0} {Q : B → Type 0} where
  pub Holds-bind :
      {A : Type 0} {P : A → Type 0} (m : Reply A) (k : A → Reply B)
      → Holds P m
      → ((a : A) → P a → Holds Q (k a))
      → Holds Q (m >>= k)
  Holds-bind (refused status) k p h = refusal
  Holds-bind (replied a) k (held p) h = h a p

  pub Holds-any :
      {A : Type 0} (m : Reply A) (k : A → Reply B) → ((a : A) → Holds Q (k a)) → Holds Q (m >>= k)
  Holds-any (refused status) k h = refusal
  Holds-any (replied a) k h = h a

  pub Holds-replied : (r : Reply B) (b : B) → Holds Q r → r ≡ replied b → Q b
  Holds-replied _ b refusal e = cc e
  Holds-replied _ b (held q) e = subst Q (cc e) q

pub Holds-and :
    {A : Type 0} {P Q : A → Type 0} (r : Reply A) → Holds P r → Holds Q r → Holds (λ a. P a × Q a) r
Holds-and _ refusal k = refusal
Holds-and (replied a) (held p) k = held (p, Holds-replied (replied a) a k refl)

pub refuse_if-Holds : (b : Bool) (status : ℕ) → Holds (λ u. b ≡ false) (refuse_if b status)
refuse_if-Holds true status = refusal
refuse_if-Holds false status = held refl

module _ (d : Driver) (t : Tables) where
  -- The row that a request has read.
  pub get_user_by_id-Holds :
      (id : Text)
      → Holds (λ u. find_by user_id_of id t.users ≡ some u) (found (get_user_by_id d id t))
  unfolding get_user_by_id
  get_user_by_id-Holds id = elim (Bool-cases d.get_fails) [
    | inl e ↦ rw e refusal
    | inr e ↦ elim (Option-cases (find_by user_id_of id t.users)) [
      | inl f ↦ rw (e, f) refusal
      | inr (u, f) ↦ rw (e, f) (held refl)
    ]
  ]

  not_last_admin-Holds : Holds (λ u. 2 ≤ admins t.users) (not_last_admin d t)
  unfolding count_admin_users
  not_last_admin-Holds = elim (Bool-cases d.count_fails) [
    | inl e ↦ rw e refusal
    | inr e ↦ elim (Bool-cases (leb (admins t.users) 1)) [
      | inl f ↦ rw (e, f) refusal
      | inr f ↦ rw (e, f) (held (ground (arith, f)))
    ]
  ]

  -- The row that UpdateUser writes: the same id, and an admin stays unless there is another.
  abbrev pub Leaves : User → User → Type 0
  Leaves a u = (u.id ≡ a.id) × (one a.is_admin + 1 ≤ admins t.users + one u.is_admin)

  set_admin-Holds :
      (wanted : Option Bool) (a u : User)
      → u.id ≡ a.id
      → u.is_admin ≡ a.is_admin
      → 1 ≤ admins t.users
      → Holds (λ r. Leaves a r.0) (set_admin d t wanted u)
  unfolding count_admin_users
  set_admin-Holds none a u same admin some_left =
      held (same, rw (sym admin) (omega (arith, some_left)))
  set_admin-Holds (some wanted) a u same admin some_left =
      elim (Bool-cases (u.is_admin && not wanted)) [
        | inl e ↦ rw e (
            Holds-bind (not_last_admin d t) (λ n. replied (record u { is_admin = wanted }, true))
              not_last_admin-Holds λ n two. held (same, ground (arith, two, admin, e)))
        | inr e ↦ rw e (held (same, ground (arith, some_left, admin, e)))
      ]

  pub set_password-Holds :
      (c : Crypt) (password : Text) (u : User)
      → Holds (λ r. (r.0.id ≡ u.id) × (r.0.is_admin ≡ u.is_admin)) (set_password c password u)
  unfolding is_oidc is_service_account
  set_password-Holds c password u = elim (Bool-cases (is_empty password)) [
    | inl e ↦ rw e (held (refl, refl))
    | inr e ↦ elim (Bool-cases (is_oidc u || is_service_account u)) [
      | inl f ↦ rw (e, f) refusal
      | inr f ↦ rw (e, f) (Holds-any (or_500 (c.hash password)) _ λ h. held (refl, refl))
    ]
  ]

  pub set_admin-id :
      (wanted : Option Bool) (u : User) → Holds (λ r. r.0.id ≡ u.id) (set_admin d t wanted u)
  set_admin-id none u = held refl
  set_admin-id (some wanted) u = elim (Bool-cases (u.is_admin && not wanted)) [
    | inl e ↦ rw e (
        Holds-any (not_last_admin d t) (λ n. replied (record u { is_admin = wanted }, true))
          λ n. held refl)
    | inr e ↦ rw e (held refl)
  ]

  pub rename-same :
      (name : Text) (u : User)
      → ((rename name u).0.id ≡ u.id) × ((rename name u).0.is_admin ≡ u.is_admin)
  rename-same name u = elim (Bool-cases (not (is_empty name) && not (text_eq name u.username))) [
    | inl e ↦ rw e (refl, refl)
    | inr e ↦ rw e (refl, refl)
  ]

  pub plan_update-Holds :
      (c : Crypt) (id : Text) (body : Option UpdateUserPayload)
      → 1 ≤ admins t.users
      → Holds
          (λ change. (a : User) × ((find_by user_id_of id t.users ≡ some a) × Leaves a change.user))
          (plan_update d c id body t)
  unfolding plan_update
  plan_update-Holds c id body some_left = Holds-any (refuse_if (is_empty id) 400) _ λ u.
      Holds-any (refuse_if (not (d.is_valid_ulid id)) 400) _ λ u.
        Holds-any (decoded body) _ λ payload.
          Holds-any (refuse_if (has_duplicate [] payload.permissions) 400) _ λ u.
            Holds-bind (found (get_user_by_id d id t)) _ (get_user_by_id-Holds id) λ a here.
              let (named, role) = rename-same payload.username a in
              Holds-bind (set_password c payload.password (rename payload.username a).0) _
                (set_password-Holds c payload.password (rename payload.username a).0)
                λ k kept.
                  Holds-bind (set_admin d t payload.is_admin k.0) _
                    (set_admin-Holds payload.is_admin a k.0 (kept.0 ∙ named) (kept.1 ∙ role)
                      some_left)
                    λ r leaves. held (a, (here, leaves))

  guarded :
      (admin : Bool)
      → 1 ≤ admins t.users
      → Holds
          (λ u. one admin + 1 ≤ admins t.users)
          (if admin then not_last_admin d t else replied tt)
  guarded true some_left = not_last_admin-Holds
  guarded false some_left = held some_left

  pub plan_delete-Holds :
      (id : Text)
      → 1 ≤ admins t.users
      → Holds
          (λ a. (find_by user_id_of id t.users ≡ some a) × (one a.is_admin + 1 ≤ admins t.users))
          (plan_delete d id t)
  unfolding plan_delete
  plan_delete-Holds id some_left = Holds-any (refuse_if (is_empty id) 400) _ λ u.
      Holds-any (refuse_if (not (d.is_valid_ulid id)) 400) _ λ u.
        Holds-bind (found (get_user_by_id d id t)) _ (get_user_by_id-Holds id) λ a here.
          Holds-bind (if a.is_admin then not_last_admin d t else replied tt) _
            (guarded a.is_admin some_left) λ u two. held (here, two)

pub new_me-Holds :
    (c : Crypt) (body : Option UpdateMePayload) (u : User)
    → Holds (λ v. (v.id ≡ u.id) × (v.is_admin ≡ u.is_admin)) (new_me c body u)
unfolding new_me
new_me-Holds c body u = Holds-any (refuse_if (is_oidc u || is_service_account u) 400) _ λ w.
    Holds-any (decoded body) _ λ payload.
      Holds-any (refuse_if (is_empty payload.old_password || is_empty payload.new_password) 400) _
        λ w.
          Holds-any (refuse_if (not (c.matches u.password_hash payload.old_password)) 401) _
            λ w. Holds-any (or_500 (c.hash payload.new_password)) _ λ hash. held (refl, refl)
