-- ===== src/Access/Auth/Rights.antt =====
-- What the holder of an authenticated request may reach.
use media_hub_oss.Prelude.{
  ℕ, ◌≡◌, Bool, true, if◌then◌else◌, some, Bool-cases, inl, inr, ◌⊎◌, ◌↔◌, false, refl, ◌∙◌, arith,
  Option, none, suc, ap, ◌/◌, ◌<◌, zero,
}
use media_hub_oss.Prelude.Text.{Text}
use media_hub_oss.Access.Auth.{cache_user_permissions}
use Prim.Native.Nat.{bit_and}
use media_hub_oss.Access.{has_access, access_admin, has_any, new_access_grant}
use media_hub_oss.Access.Bits.{has_bit, has_bit-and, has_any_iff, has_bit-zero}
use media_hub_oss.Access.Accounts.{User, ApiKey}
use media_hub_oss.Access.Holders.{Grants, load_permissions, get, has_permission, allows}

-- The scope of a request: the key's, or for a session every right.
abbrev pub scope_of : ApiKey → Bool → ℕ
scope_of key is_api_key = if is_api_key then key.scope else 31

-- The rules for one request: an admin without a key, or with a key of admin scope, may do anything;
-- otherwise one right has to be asked for, within the scope, and given to the user on the database,
-- where an admin has every right.
pub data MayReach (grants : Grants) (user : User) (key : ApiKey) (is_api_key : Bool) (db : Text)
    (ag : ℕ) : Type 0 where
  as_admin :
      user.is_admin ≡ true
      → (is_api_key ≡ true → has_access key.scope access_admin ≡ true)
      → MayReach grants user key is_api_key db ag
  as_key_of_admin :
      user.is_admin ≡ true
      → is_api_key ≡ true
      → (k : ℕ) → has_bit k ag ≡ true
      → has_bit k key.scope ≡ true
      → MayReach grants user key is_api_key db ag
  as_user :
      (k perm : ℕ)
      → has_bit k ag ≡ true
      → has_bit k (scope_of key is_api_key) ≡ true
      → get db (load_permissions grants user.id) ≡ some perm
      → has_bit k perm ≡ true
      → MayReach grants user key is_api_key db ag

module _ (grants : Grants) (user : User) (key : ApiKey) (is_api_key : Bool) (db : Text)
    (ag : ℕ) where
  abbrev reaches : Bool
  reaches = has_permission grants (cache_user_permissions user key is_api_key) db ag

  of_admin :
      user.is_admin ≡ true
      → (is_api_key ≡ false) ⊎ (has_access key.scope access_admin ≡ true)
      → reaches ≡ true
  unfolding has_permission cache_user_permissions
  of_admin a h = ground (arith, a, h)

  of_key :
      user.is_admin ≡ true
      → is_api_key ≡ true
      → has_access key.scope access_admin ≡ false
      → reaches ≡ has_any key.scope ag
  unfolding has_permission cache_user_permissions
  of_key a k h = ground (arith, a, k, h)

  of_user :
      user.is_admin ≡ false
      → reaches ≡ allows (scope_of key is_api_key) ag (get db (load_permissions grants user.id))
  unfolding has_permission cache_user_permissions new_access_grant
  of_user a = ground (arith, a)

  -- The request may reach a database for some of the rights asked for exactly where the rules say so.
  pub has_permission-MayReach :
      (has_permission grants (cache_user_permissions user key is_api_key) db ag ≡ true)
      ↔ MayReach grants user key is_api_key db ag
  has_permission-MayReach = (rules, reached)
    where
      users :
          (perm : Option ℕ)
          → get db (load_permissions grants user.id) ≡ perm
          → allows (scope_of key is_api_key) ag perm ≡ true
          → MayReach grants user key is_api_key db ag
      users none e h = cc h
      users (some perm) e h =
          let s = (has_any_iff (bit_and (scope_of key is_api_key) perm) ag).0 h in
          as_user s.bit perm s.in_second
            (ground (arith, s.in_first, has_bit-and (scope_of key is_api_key) perm s.bit)) e
            (ground (arith, s.in_first, has_bit-and (scope_of key is_api_key) perm s.bit))

      admins : user.is_admin ≡ true → reaches ≡ true → MayReach grants user key is_api_key db ag
      admins a h = elim (Bool-cases is_api_key) [
        | inr k ↦ as_admin a λ e. cc (k, e)
        | inl k ↦ elim (Bool-cases (has_access key.scope access_admin)) [
          | inl full ↦ as_admin a λ e. full
          | inr partial ↦
              let s = (has_any_iff key.scope ag).0 (cc (of_key a k partial, h)) in
              as_key_of_admin a k s.bit s.in_second s.in_first
        ]
      ]

      rules : reaches ≡ true → MayReach grants user key is_api_key db ag
      rules h = elim (Bool-cases user.is_admin) [
        | inl a ↦ admins a h
        | inr a ↦ users (get db (load_permissions grants user.id)) refl (cc (of_user a, h))
      ]

      through_key :
          (k : ℕ)
          → user.is_admin ≡ true
          → is_api_key ≡ true
          → has_bit k ag ≡ true
          → has_bit k key.scope ≡ true
          → reaches ≡ true
      through_key k a e in_ag in_scope = elim (Bool-cases (has_access key.scope access_admin)) [
        | inl full ↦ of_admin a (inr full)
        | inr partial ↦
            of_key a e partial
            ∙ (has_any_iff key.scope ag).1
                (record { bit = k; in_first = in_scope; in_second = in_ag })
      ]

      reached : MayReach grants user key is_api_key db ag → reaches ≡ true
      reached (as_admin a f) = elim (Bool-cases is_api_key) [
        | inl k ↦ of_admin a (inr (f k))
        | inr k ↦ of_admin a (inl k)
      ]
      reached (as_key_of_admin a e k in_ag in_scope) = through_key k a e in_ag in_scope
      reached (as_user k perm in_ag in_scope e in_perm) = elim (Bool-cases user.is_admin) [
        | inl a ↦ elim (Bool-cases is_api_key) [
          | inl b ↦ through_key k a b in_ag (ground (arith, b, in_scope))
          | inr b ↦ of_admin a (inl b)
        ]
        | inr a ↦ rw (of_user a) (
            rw e (
              (has_any_iff (bit_and (scope_of key is_api_key) perm) ag).1 (record {
                bit = k;
                in_first =
                    ground (arith, in_scope, in_perm, has_bit-and (scope_of key is_api_key) perm k);
                in_second = in_ag;
              })))
      ]

-- The five rights have the five lowest bits.
five_bits : (k ag : ℕ) → ag < 32 → has_bit k ag ≡ true → has_bit k 31 ≡ true
unfolding has_bit
five_bits zero ag h e = refl
five_bits (suc zero) ag h e = refl
five_bits (suc (suc zero)) ag h e = refl
five_bits (suc (suc (suc zero))) ag h e = refl
five_bits (suc (suc (suc (suc zero)))) ag h e = refl
five_bits (suc (suc (suc (suc (suc k))))) ag h e =
    let none_left : ag / 2 / 2 / 2 / 2 / 2 ≡ 0 = omega arith in
    cc (ap (has_bit k) none_left, has_bit-zero k, e)

-- A key of a user's reaches a database for the rights asked for only where that user's session does:
-- no key adds to the rights of its owner, whatever its scope.
pub key_restricts :
    (grants : Grants) (user : User) (key : ApiKey) (db : Text) (ag : ℕ)
    → ag < 32
    → has_permission grants (cache_user_permissions user key true) db ag ≡ true
    → has_permission grants (cache_user_permissions user key false) db ag ≡ true
key_restricts grants user key db ag fits h =
    (has_permission-MayReach grants user key false db ag).1
      (session ((has_permission-MayReach grants user key true db ag).0 h))
  where
    session : MayReach grants user key true db ag → MayReach grants user key false db ag
    session (as_admin a f) = as_admin a (λ e. cc e)
    session (as_key_of_admin a e k in_ag in_scope) = as_admin a (λ e. cc e)
    session (as_user k perm in_ag in_scope e in_perm) =
        as_user k perm in_ag (five_bits k ag fits in_ag) e in_perm
