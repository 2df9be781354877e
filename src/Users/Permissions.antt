-- ===== src/Users/Permissions.antt =====
-- internal/repository/sqlite/user.go: what SetUserPermissions writes, GetUserPermissions reads.
use Prim.Native.Nat.{bit_and}
use media_hub_oss.Prelude.{
  ℕ, zero, suc, ◌+◌, ◌≡◌, refl, sym, ap, ◌∙◌, arith, Bool, true, false, not, ◌&&◌, ◌||◌, ◌==◌,
  if◌then◌else◌, none, some, List, [], ◌∷◌, filter, ok, err, Error, Bool-cases, inl, inr,
}
use media_hub_oss.Prelude.Text.{Text, text_eq, text_eq→≡}
use media_hub_oss.Prelude.Keyed.{has_key}
use media_hub_oss.Access.{has_access, new_access_grant}
use media_hub_oss.Access.Bits.{
  has_bit, has_bit-and, has_bit-zero, same_bits, new_access_grant-bits, has_access_iff,
}
use media_hub_oss.Access.Accounts.{UserPermission}
use media_hub_oss.Users.{
  PermissionRow, Tables, Driver, is_for, row_of, roles_of, upsert, find_permission, user_id_of,
  set_user_permissions, get_user_permissions,
}

-- Do two pairs of a user and a database agree?
abbrev pub same_pair : Text → Text → Text → Text → Bool
same_pair u db u' db' = text_eq u u' && text_eq db db'

same_pair→is_for :
    (u db u' db' : Text) (p : PermissionRow)
    → same_pair u db u' db' ≡ true
    → is_for u' db' p ≡ is_for u db p
same_pair→is_for u db u' db' p e =
    let user : u ≡ u' = text_eq→≡ u u' (ground (arith, e)) in
    let database : db ≡ db' = text_eq→≡ db db' (ground (arith, e)) in rw (user, database) refl

is_for→same_pair :
    (u db u' db' : Text) (p : PermissionRow)
    → is_for u db p ≡ true
    → is_for u' db' p ≡ same_pair u db u' db'
is_for→same_pair u db u' db' p e =
    let user : p.user_id ≡ u = text_eq→≡ p.user_id u (ground (arith, e)) in
    let database : p.database_id ≡ db = text_eq→≡ p.database_id db (ground (arith, e)) in
    rw (user, database) refl

pub find_permission-upsert :
    (u db : Text) (row : PermissionRow) (ps : List PermissionRow)
    → find_permission u db (upsert row ps)
      ≡ (if same_pair row.user_id row.database_id u db then some row else find_permission u db ps)
find_permission-upsert u db row [] = ground arith
find_permission-upsert u db row (p ∷ ps) =
    elim (Bool-cases (is_for row.user_id row.database_id p)) [
      | inl e ↦ ground (arith, e, is_for→same_pair row.user_id row.database_id u db p e)
      | inr e ↦ elim (Bool-cases (same_pair row.user_id row.database_id u db)) [
        | inl s ↦
            let here = same_pair→is_for row.user_id row.database_id u db p s ∙ e in
            rw (e, here, s) (find_permission-upsert u db row ps ∙ rw s refl)
        | inr s ↦ elim (Bool-cases (is_for u db p)) [
          | inl f ↦ rw (e, f, s) refl
          | inr f ↦ rw (e, f, s) (find_permission-upsert u db row ps ∙ rw s refl)
        ]
      ]
    ]

pub find_permission-filter :
    (u db u' db' : Text) (ps : List PermissionRow)
    → find_permission u' db' (filter (λ r. not (is_for u db r)) ps)
      ≡ (if same_pair u db u' db' then none else find_permission u' db' ps)
find_permission-filter u db u' db' [] = ground arith
find_permission-filter u db u' db' (p ∷ ps) = elim (Bool-cases (is_for u db p)) [
  | inl e ↦
      let here = is_for→same_pair u db u' db' p e in
      elim (Bool-cases (same_pair u db u' db')) [
        | inl s ↦ rw (e, s) (find_permission-filter u db u' db' ps ∙ rw s refl)
        | inr s ↦ rw (e, here, s) (find_permission-filter u db u' db' ps ∙ rw s refl)
      ]
  | inr e ↦ elim (Bool-cases (same_pair u db u' db')) [
    | inl s ↦
        let here = same_pair→is_for u db u' db' p s ∙ e in
        rw (e, here, s) (find_permission-filter u db u' db' ps ∙ rw s refl)
    | inr s ↦ elim (Bool-cases (is_for u' db' p)) [
      | inl f ↦ rw (e, f, s) refl
      | inr f ↦ rw (e, f, s) (find_permission-filter u db u' db' ps ∙ rw s refl)
    ]
  ]
]

-- HasAccess for a single right is its bit.
has_access-bit :
    (k ag bit : ℕ)
    → has_bit k bit ≡ true
    → ((j : ℕ) → has_bit j bit ≡ true → j ≡ k)
    → has_access ag bit ≡ has_bit k ag
has_access-bit k ag bit self only = elim (Bool-cases (has_bit k ag)) [
  | inl e ↦ (has_access_iff ag bit).1 (λ j f. ap (λ i. has_bit i ag) (only j f) ∙ e) ∙ sym e
  | inr e ↦ elim (Bool-cases (has_access ag bit)) [
    | inl f ↦ absurd (ground (arith, e, (has_access_iff ag bit).0 f k self))
    | inr f ↦ f ∙ sym e
  ]
]

only_view : (j : ℕ) → has_bit j 1 ≡ true → j ≡ 0
unfolding has_bit
only_view zero e = refl
only_view (suc j) e = absurd (ground (arith, e, has_bit-zero j))

only_create : (j : ℕ) → has_bit j 2 ≡ true → j ≡ 1
unfolding has_bit
only_create zero e = absurd (ground (arith, e))
only_create (suc j) e = ap suc (only_view j e)

only_edit : (j : ℕ) → has_bit j 4 ≡ true → j ≡ 2
unfolding has_bit
only_edit zero e = absurd (ground (arith, e))
only_edit (suc j) e = ap suc (only_create j e)

only_delete : (j : ℕ) → has_bit j 8 ≡ true → j ≡ 3
unfolding has_bit
only_delete zero e = absurd (ground (arith, e))
only_delete (suc j) e = ap suc (only_edit j e)

only_admin : (j : ℕ) → has_bit j 16 ≡ true → j ≡ 4
unfolding has_bit
only_admin zero e = absurd (ground (arith, e))
only_admin (suc j) e = ap suc (only_delete j e)

flags_bit :
    (r k : ℕ)
    → ((has_bit 0 r && has_bit k 1)
        || (has_bit 1 r && has_bit k 2)
        || (has_bit 2 r && has_bit k 4)
        || (has_bit 3 r && has_bit k 8)
        || (has_bit 4 r && has_bit k 16))
      ≡ (has_bit k r && has_bit k 31)
unfolding has_bit
flags_bit r zero = ground arith
flags_bit r (suc zero) = ground arith
flags_bit r (suc (suc zero)) = ground arith
flags_bit r (suc (suc (suc zero))) = ground arith
flags_bit r (suc (suc (suc (suc zero)))) = ground arith
flags_bit r (suc (suc (suc (suc (suc k))))) = rw (has_bit-zero k) (ground arith)

-- A row keeps the five rights, and no other bit.
pub roles_of-row_of : (p : UserPermission) → roles_of (row_of p) ≡ bit_and p.roles 31
unfolding has_bit
roles_of-row_of p =
    same_bits (roles_of (row_of p) + bit_and p.roles 31) (roles_of (row_of p)) (bit_and p.roles 31)
      (omega arith) (omega arith)
      λ k.
        new_access_grant-bits (has_access p.roles 1) (has_access p.roles 2) (has_access p.roles 4)
          (has_access p.roles 8) (has_access p.roles 16) k
        ∙ rw
            (
              has_access-bit 0 p.roles 1 refl only_view,
              has_access-bit 1 p.roles 2 refl only_create,
              has_access-bit 2 p.roles 4 refl only_edit,
              has_access-bit 3 p.roles 8 refl only_delete,
              has_access-bit 4 p.roles 16 refl only_admin,
            )
            (flags_bit p.roles k ∙ sym (has_bit-and p.roles 31 k))

-- The five flags are all that a grant has.
pub new_access_grant_masked :
    (v c e d a : Bool) → bit_and (new_access_grant v c e d a) 31 ≡ new_access_grant v c e d a
unfolding new_access_grant
new_access_grant_masked true true e d a = ground arith
new_access_grant_masked true false e d a = ground arith
new_access_grant_masked false true e d a = ground arith
new_access_grant_masked false false e d a = ground arith

-- After a successful SetUserPermissions, GetUserPermissions answers for the same user and database
-- with the five rights of the roles that were set, or that there is no permission where the roles
-- were zero; for every other pair it answers as it did before.
pub set_user_permissions-get :
    (d : Driver) (p : UserPermission) (t : Tables) (u db : Text)
    → (set_user_permissions d p t).0 ≡ ok tt
    → d.permission_fails db ≡ false
    → get_user_permissions d u db (set_user_permissions d p t).1 ≡ (
        if same_pair p.user_id p.database_id u db
        then (if p.roles == 0
            then err Error.not_found
            else ok (record { user_id = u; database_id = db; roles = bit_and p.roles 31 }))
        else get_user_permissions d u db t)
unfolding set_user_permissions get_user_permissions
set_user_permissions-get d p t u db done reads =
    elim (Bool-cases (d.permission_fails p.database_id)) [
      | inl e ↦ absurd (ground (arith, e, done))
      | inr e ↦ elim (Bool-cases (p.roles == 0)) [
        | inl z ↦
            rw (e, z, reads, find_permission-filter p.user_id p.database_id u db t.permissions)
              (ground arith)
        | inr z ↦
            elim (Bool-cases
              (has_key user_id_of p.user_id t.users && d.database_exists p.database_id)) [
                | inl there ↦
                    rw (e, z, there, reads, find_permission-upsert u db (row_of p) t.permissions)
                      (ground (arith, roles_of-row_of p))
                | inr there ↦ absurd (ground (arith, e, z, there, done))
              ]
      ]
    ]
