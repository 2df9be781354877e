-- ===== src/Users/Requests/Passwords.antt =====
-- internal/httpserver/userhandler/users.go: sessions after a password changes or a user goes.
use media_hub_oss.Prelude.{
  ℕ, ◌*◌, ◌||◌, ◌≡◌, ◌≢◌, refl, sym, ap, ◌∙◌, arith, true, false, not, ltb, Option, none, some,
  List, [], ◌∷◌, filter, All, Result, ok, err, Bool-cases, inl, inr,
}
use mathlib.Core.Path.{subst}
use media_hub_oss.Prelude.Text.{Text, text_eq, text_eq_refl, is_empty}
use media_hub_oss.Prelude.Keyed.{find_by, find_by-key, has_key}
use media_hub_oss.Access.Accounts.{User, UserPermission, is_oidc, is_service_account}
use media_hub_oss.Repository.Tokens.{
  Tokens, TokenEnv, find_token, live_user, validate_refresh_token,
}
use media_hub_oss.Users.{
  Tables, Driver, user_id_of, set_user_permissions, update_user, delete_user, get_user_by_id,
}
use media_hub_oss.Users.Replies.{
  Reply, refused, replied, refuse_if, found, or_500, has_duplicate, Crypt, DatabasePermission,
  UpdateUserPayload,
}
use media_hub_oss.Users.Requests.Decisions.{Holds, held, refusal, Holds-any, Holds-bind}
use media_hub_oss.Users.Requests.Histories.{
  Request, create, update, delete, update_own, serve, serve_own, accepts, accepts_own, accepted,
  signs_out,
}
use media_hub_oss.Users.Requests.{
  decided, rename, set_password, set_admin, revoke, new_me, me_written, update_me, permission_for,
  Change, plan_update, apply_permissions, change_written, patch_user, plan_delete, deletion_written,
  remove_user,
}

-- Every token of the table is another user's.
abbrev SignedOut : Text → Tokens → Type 0
SignedOut id ts = All (λ k. text_eq k.user_id id ≡ false) ts

filter-SignedOut :
    (id : Text) (ts : Tokens) → SignedOut id (filter (λ k. not (text_eq k.user_id id)) ts)
filter-SignedOut id [] = tt
filter-SignedOut id (k ∷ ts) = elim (Bool-cases (text_eq k.user_id id)) [
  | inl e ↦ rw e (filter-SignedOut id ts)
  | inr e ↦ rw e (e, filter-SignedOut id ts)
]

revoke-SignedOut :
    (d : Driver) (id : Text) (t : Tables)
    → d.token_env.exec_fails ≡ false
    → SignedOut id (revoke d id t).tokens
unfolding revoke
revoke-SignedOut d id t works = rw works (filter-SignedOut id t.tokens)

-- No token is good for the user.
abbrev pub NoSession : Text → Tables → Type 0
NoSession id t = (env : TokenEnv) (h : Text) → validate_refresh_token env h t.tokens ≢ ok id

find_token-SignedOut :
    (id h : Text) (ts : Tokens) (now : ℕ)
    → SignedOut id ts
    → live_user now (find_token h ts) ≢ ok id
unfolding find_token
find_token-SignedOut id h [] now s e = cc e
find_token-SignedOut id h (k ∷ ts) now s e = elim (Bool-cases (text_eq k.token_hash h)) [
  | inr f ↦ find_token-SignedOut id h ts now s.1 (ground (arith, e, f))
  | inl f ↦ elim (Bool-cases (ltb (k.expiry * 1_000_000) now)) [
    | inl g ↦ absurd (ground (arith, e, f, g))
    | inr g ↦
        let same : k.user_id ≡ id = ground (arith, e, f, g) in
        absurd (ground (arith, s.0, ap (λ i. text_eq i id) same, text_eq_refl id))
  ]
]

SignedOut-NoSession : (id : Text) (t : Tables) → SignedOut id t.tokens → NoSession id t
unfolding validate_refresh_token
SignedOut-NoSession id t s env h e = elim (Bool-cases env.query_fails) [
  | inl f ↦ absurd (ground (arith, e, f))
  | inr f ↦ find_token-SignedOut id h t.tokens env.now s (ground (arith, e, f))
]

set_user_permissions-tokens :
    (d : Driver) (p : UserPermission) (t : Tables)
    → (set_user_permissions d p t).1.tokens ≡ t.tokens
unfolding set_user_permissions
set_user_permissions-tokens d p t = ground arith

apply_permissions-tokens :
    (d : Driver) (id : Text) (ps : List DatabasePermission) (t : Tables)
    → (apply_permissions d id ps t).tokens ≡ t.tokens
unfolding apply_permissions
apply_permissions-tokens d id [] t = refl
apply_permissions-tokens d id (p ∷ ps) t =
    apply_permissions-tokens d id ps (set_user_permissions d (permission_for id p) t).1
    ∙ set_user_permissions-tokens d (permission_for id p) t

-- A new password is a change of the row.
set_password-changed :
    (c : Crypt) (password : Text) (u : User)
    → is_empty password ≡ false
    → Holds (λ r. r.1 ≡ true) (set_password c password u)
unfolding is_oidc is_service_account
set_password-changed c password u e = elim (Bool-cases (is_oidc u || is_service_account u)) [
  | inl f ↦ rw (e, f) refusal
  | inr f ↦ rw (e, f) (Holds-any (or_500 (c.hash password)) _ λ h. held refl)
]

plan_update-password :
    (d : Driver) (c : Crypt) (id : Text) (payload : UpdateUserPayload) (t : Tables)
    → is_empty payload.password ≡ false
    → Holds
        (λ change. (change.user_changed ≡ true) × (change.password_changed ≡ true))
        (plan_update d c id (some payload) t)
unfolding plan_update
plan_update-password d c id payload t e = Holds-any (refuse_if (is_empty id) 400) _ λ u.
    Holds-any (refuse_if (not (d.is_valid_ulid id)) 400) _ λ u.
      Holds-any (refuse_if (has_duplicate [] payload.permissions) 400) _ λ u.
        Holds-any (found (get_user_by_id d id t)) _ λ a.
          Holds-bind (set_password c payload.password (rename payload.username a).0) _
            (set_password-changed c payload.password (rename payload.username a).0 e)
            λ k new.
              Holds-any (set_admin d t payload.is_admin k.0) _ λ r. held (ground (arith, new), new)

module _ (d : Driver) (id : Text) (works : d.token_env.exec_fails ≡ false) where
  me_written-SignedOut :
      (r : Result User × Tables)
      → accepts (me_written d id r).0 ≡ true
      → SignedOut id (me_written d id r).1.tokens
  me_written-SignedOut (err e, t) h = absurd (ground (arith, h))
  me_written-SignedOut (ok u, t) h = revoke-SignedOut d id t works

  change_written-SignedOut :
      (change : Change) (r : Result User × Tables)
      → change.password_changed ≡ true
      → accepts (change_written d id change r).0 ≡ true
      → SignedOut id (change_written d id change r).1.tokens
  change_written-SignedOut change (err e, t) new h = absurd (ground (arith, h))
  change_written-SignedOut change (ok u, t) new h = rw new (
      subst (λ (ts : Tokens). SignedOut id ts)
        (sym (apply_permissions-tokens d id change.permissions (revoke d id t)))
        (revoke-SignedOut d id t works))

  decided-SignedOut :
      {A B : Type 0} {Q : A → Type 0} (r : Reply A) (t : Tables) (write : A → Reply B × Tables)
      → Holds Q r
      → (accepts (decided r t write).0 ≡ true)
      → ((a : A) → Q a → accepts (write a).0 ≡ true → SignedOut id (write a).1.tokens)
      → SignedOut id (decided r t write).1.tokens
  decided-SignedOut _ t write refusal h k = cc h
  decided-SignedOut _ t write (held q) h k = k _ q h

  deletion_written-SignedOut :
      (name : Text) (t : Tables)
      → accepts (deletion_written id name (delete_user d id t)).0 ≡ true
      → SignedOut id (deletion_written id name (delete_user d id t)).1.tokens
  unfolding delete_user
  deletion_written-SignedOut name t h = elim (Bool-cases d.delete_fails) [
    | inl e ↦ absurd (ground (arith, e, h))
    | inr e ↦ elim (Bool-cases d.result_fails) [
      | inl f ↦ absurd (ground (arith, e, f, h))
      | inr f ↦ elim (Bool-cases (has_key user_id_of id t.users)) [
        | inl g ↦ rw (e, f, g) (filter-SignedOut id t.tokens)
        | inr g ↦ absurd (ground (arith, e, f, g, h))
      ]
    ]
  ]

any : {A : Type 0} (r : Reply A) → Holds (λ a. Unit {0}) r
any (refused status) = refusal
any (replied a) = held tt

signed_out :
    (d : Driver) (c : Crypt) (r : Request) (t : Tables) (id : Text)
    → signs_out r ≡ some id
    → d.token_env.exec_fails ≡ false
    → accepted d c r t ≡ true
    → SignedOut id (serve d c r t).tokens
unfolding update_me patch_user remove_user
signed_out d c (create body) t id who works h = cc who
signed_out d c (update i none) t id who works h = cc who
signed_out d c (update i (some payload)) t id who works h =
    elim (Bool-cases (is_empty payload.password)) [
      | inl e ↦ absurd (ground (arith, who, e))
      | inr e ↦
          let same : i ≡ id = ground (arith, who, e) in
          subst (λ (j : Text). SignedOut j (serve d c (update i (some payload)) t).tokens) same
            (decided-SignedOut d i works (plan_update d c i (some payload) t) t _
              (plan_update-password d c i payload t e) h
              λ change (row, new).
                rw row
                  (change_written-SignedOut d i works change (update_user d change.user t) new))
    ]
signed_out d c (delete i) t id who works h =
    let same : i ≡ id = cc who in
    subst (λ (j : Text). SignedOut j (serve d c (delete i) t).tokens) same
      (decided-SignedOut d i works (plan_delete d i t) t _ (any (plan_delete d i t)) h
        λ u any. deletion_written-SignedOut d i works u.username t)
signed_out d c (update_own i body) t id who works h =
    subst (λ (j : Text). SignedOut j (serve d c (update_own i body) t).tokens) (cc who)
      (own (find_by user_id_of i t.users) refl h)
  where
    own :
        (o : Option User)
        → find_by user_id_of i t.users ≡ o
        → accepts_own d c body o t ≡ true
        → SignedOut i (serve_own d c body o t).tokens
    own none e h = cc h
    own (some u) e h =
        let same = find_by-key user_id_of i t.users u e in
        subst (λ (j : Text). SignedOut j (update_me d c body u t).1.tokens) same
          (decided-SignedOut d u.id works (new_me c body u) t _ (any (new_me c body u)) h
            λ v any. me_written-SignedOut d u.id works (update_user d v t))

-- After a request has given a user a new password, by the user or by an admin, or has removed the
-- user, no refresh token is accepted for that user, if the statement that deletes tokens works.
pub serve-NoSession :
    (d : Driver) (c : Crypt) (r : Request) (t : Tables) (id : Text)
    → signs_out r ≡ some id
    → d.token_env.exec_fails ≡ false
    → accepted d c r t ≡ true
    → NoSession id (serve d c r t)
serve-NoSession d c r t id who works h =
    SignedOut-NoSession id (serve d c r t) (signed_out d c r t id who works h)
