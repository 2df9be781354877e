-- ===== src/Users/Accounts.antt =====
-- internal/repository/sqlite/user.go: the users' rows under the statements.
use media_hub_oss.Prelude.{
  ℕ, ◌+◌, ◌≤◌, ◌≡◌, refl, arith, not, ◌||◌, some, List, Bool-cases, inl, inr,
}
use media_hub_oss.Prelude.Text.{Text, is_empty}
use media_hub_oss.Prelude.Keyed.{
  find_by, has_key, has_key-Misses, taken_by_other, taken_by_other-OthersMiss, count, one, Distinct,
  filter-Distinct, snoc-Distinct, change-Distinct, change-Distinct_other, count-snoc, count-change,
  count-without,
}
use media_hub_oss.Access.Accounts.{User}
use media_hub_oss.Users.{
  Tables, Driver, user_id_of, username_of, is_admin_of, fits, insert_user, create_user, delete_user,
  update_user, without_user,
}

-- No id and no name twice.
abbrev pub IsValid : List User → Type 0
IsValid us = Distinct user_id_of us × Distinct username_of us

abbrev pub admins : List User → ℕ
admins us = count is_admin_of us

-- A statement keeps the rows valid and the number of admins at least.
abbrev Grows : List User → List User → Type 0
Grows us after = IsValid after × (admins us ≤ admins after)

insert_user-Grows :
    (d : Driver) (u : User) (t : Tables)
    → IsValid t.users
    → Grows t.users (insert_user d u t).1.users
insert_user-Grows d u t v = elim (Bool-cases (d.insert_fails || not (fits u.username))) [
  | inl e ↦ rw e (v, omega arith)
  | inr e ↦
      elim (Bool-cases
        (has_key user_id_of u.id t.users || has_key username_of u.username t.users)) [
          | inl taken ↦ rw (e, taken) (v, omega arith)
          | inr new ↦
              let ids = has_key-Misses user_id_of u.id t.users (ground (arith, new)) in
              let names = has_key-Misses username_of u.username t.users (ground (arith, new)) in
              rw (e, new)
                (
                  (
                    snoc-Distinct user_id_of t.users u v.0 ids,
                    snoc-Distinct username_of t.users u v.1 names,
                  ),
                  rw (count-snoc user_id_of is_admin_of t.users u) (omega arith),
                )
        ]
]

pub create_user-Grows :
    (d : Driver) (u : User) (t : Tables)
    → IsValid t.users
    → Grows t.users (create_user d u t).1.users
unfolding create_user
create_user-Grows d u t v = elim (Bool-cases (is_empty u.id)) [
  | inl e ↦ rw e (insert_user-Grows d (record u { id = d.new_ulid }) t v)
  | inr e ↦ elim (Bool-cases (d.is_valid_ulid u.id)) [
    | inl f ↦ rw (e, f) (insert_user-Grows d u t v)
    | inr f ↦ rw (e, f) (v, omega arith)
  ]
]

-- An update of a user who was `a`, where an admin who is no longer one is not the last.
pub update_user-IsValid :
    (d : Driver) (u a : User) (t : Tables)
    → IsValid t.users
    → find_by user_id_of u.id t.users ≡ some a
    → 1 ≤ admins t.users
    → one a.is_admin + 1 ≤ admins t.users + one u.is_admin
    → IsValid (update_user d u t).1.users × (1 ≤ admins (update_user d u t).1.users)
unfolding update_user
update_user-IsValid d u a t v found some_left left =
    elim (Bool-cases (not (has_key user_id_of u.id t.users))) [
      | inl e ↦ rw e (v, some_left)
      | inr e ↦ elim (Bool-cases (d.update_fails || not (fits u.username))) [
        | inl f ↦ rw (e, f) (v, some_left)
        | inr f ↦
            elim (Bool-cases (taken_by_other user_id_of username_of u.id u.username t.users)) [
              | inl g ↦ rw (e, f, g) (v, some_left)
              | inr g ↦
                  rw (e, f, g)
                    (
                      (
                        change-Distinct user_id_of u.id u t.users v.0 refl,
                        change-Distinct_other user_id_of username_of u.id u t.users v.0 v.1 (
                            taken_by_other-OthersMiss user_id_of username_of u.id u.username t.users
                              g),
                      ),
                      omega (
                        arith,
                        left,
                        count-change user_id_of is_admin_of u.id u a t.users v.0 found,
                      ),
                    )
            ]
      ]
    ]

without_user-IsValid :
    (id : Text) (a : User) (t : Tables)
    → IsValid t.users
    → find_by user_id_of id t.users ≡ some a
    → one a.is_admin + 1 ≤ admins t.users
    → IsValid (without_user id t).users × (1 ≤ admins (without_user id t).users)
without_user-IsValid id a t v found left = (
  (filter-Distinct user_id_of _ t.users v.0, filter-Distinct username_of _ t.users v.1),
  omega (arith, left, count-without user_id_of is_admin_of id a t.users v.0 found),
)

pub delete_user-IsValid :
    (d : Driver) (id : Text) (a : User) (t : Tables)
    → IsValid t.users
    → find_by user_id_of id t.users ≡ some a
    → one a.is_admin + 1 ≤ admins t.users
    → IsValid (delete_user d id t).1.users × (1 ≤ admins (delete_user d id t).1.users)
unfolding delete_user
delete_user-IsValid d id a t v found left =
    let gone = without_user-IsValid id a t v found left in
    elim (Bool-cases d.delete_fails) [
      | inl e ↦ rw e (v, omega (arith, left))
      | inr e ↦ elim (Bool-cases d.result_fails) [ inl f ↦ rw (e, f) gone | inr f ↦ rw (e, f) gone ]
    ]
