-- ===== src/ApiKeys/Requests/Login.antt =====
-- internal/httpserver/userhandler/api_keys.go and internal/httpserver/auth/middlewares.go: a new key
-- as a login.
use mathlib.Core.Path.{subst}
use media_hub_oss.Prelude.{
  ℕ, ◌≡◌, refl, sym, ap, ◌∙◌, arith, Bool, false, ◌||◌, leb, if◌then◌else◌, Option, none, some, [],
  ◌∷◌, ◌++◌, drop, length, Result, ok, err, Error, Bool-cases, inl, inr, ◌-◌,
}
use media_hub_oss.Prelude.Text.{Text, codes, text_eq, text_eq→≡, text_eq_refl, is_empty}
use media_hub_oss.Prelude.Keyed.{find_by, find_by-key, find_by-snoc, has_key, has_key-Misses}
use media_hub_oss.Access.{has_access, new_access_grant}
use media_hub_oss.Access.Accounts.{User, ApiKey}
use media_hub_oss.Access.Auth.{Outside, key_expired, validate_api_key}
use media_hub_oss.Users.{user_id_of, get_user_by_id}
use media_hub_oss.Users.Permissions.{roles_of-row_of, new_access_grant_masked}
use media_hub_oss.Users.Replies.{Reply, refused, replied, refuse_if, found, or_500}
use media_hub_oss.Users.Requests.Decisions.{
  Holds, held, refusal, Holds-any, Holds-bind, get_user_by_id-Holds,
}
use media_hub_oss.ApiKeys.{
  KeyTable, KeyEnv, key_id_of, key_hash_of, to_millis, from_millis, column_of, time_of, key_row,
  key_of, creation_time, with_defaults, insert_key, create_api_key, get_api_key_with_owner_by_hash,
}
use media_hub_oss.ApiKeys.Requests.{
  CreateApiKeyPayload, ApiKeyResponse, Secrets, time_of_payload, target_user, new_key, key_created,
  created_from, post_key,
}

-- Authentication with the table of keys behind it.
abbrev pub backed : Outside → Secrets → KeyEnv → KeyTable → Outside
backed o s env t = record o {
  key_with_owner = λ hash. get_api_key_with_owner_by_hash env hash t;
  sha256_hex = s.sha256_hex;
}

insert_key-row :
    (env : KeyEnv) (k : ApiKey) (t : KeyTable) (k' : ApiKey) (t' : KeyTable)
    → insert_key env k t ≡ (ok k', t')
    → (t' ≡ t ++ (key_row k (creation_time env k.created_at) ∷ []))
      × (has_key key_hash_of k.key_hash t ≡ false)
insert_key-row env k t k' t' h = elim (Bool-cases env.exec_fails) [
  | inl e ↦ absurd (ground (arith, e, h))
  | inr e ↦ elim (Bool-cases (has_key key_id_of k.id t || has_key key_hash_of k.key_hash t)) [
    | inl f ↦ absurd (ground (arith, e, f, h))
    | inr f ↦ elim (Bool-cases (has_key user_id_of k.user_id env.tables.users)) [
      | inr g ↦ absurd (ground (arith, e, f, g, h))
      | inl g ↦ (ground (arith, e, f, g, h), ground (arith, f))
    ]
  ]
]

module _ (env : KeyEnv) (s : Secrets) (user : User) (user_id : Text)
    (payload : CreateApiKeyPayload) where
  -- The key that is made of a secret, and the key that is read back.
  abbrev made_key : Text → Text → ApiKey
  made_key secret owner = record {
    id = env.new_ulid;
    user_id = owner;
    name = payload.name;
    key_hash = s.sha256_hex secret;
    key_hint = codes "srv_..." ++ drop (length secret - 4) secret;
    scope =
        new_access_grant payload.scope_view payload.scope_create payload.scope_edit
          payload.scope_delete payload.scope_admin;
    created_at = some env.now;
    expires_at = time_of_payload payload.expires_at;
    last_used_at = none;
  }

  abbrev pub issued_key : Text → ApiKey
  issued_key secret = record (made_key secret user_id) {
    created_at = some (from_millis (to_millis env.now));
  }

  target_user-id : Holds (λ u. u.id ≡ user_id) (target_user env user user_id)
  target_user-id = elim (Bool-cases (text_eq user.id user_id)) [
    | inl e ↦ rw e (held (text_eq→≡ user.id user_id e))
    | inr e ↦ rw e (
        weaken (found (get_user_by_id env.driver user_id env.tables))
          (get_user_by_id-Holds env.driver env.tables user_id))
  ]
    where
      weaken :
          (r : Reply User)
          → Holds (λ u. find_by user_id_of user_id env.tables.users ≡ some u) r
          → Holds (λ u. u.id ≡ user_id) r
      weaken _ refusal = refusal
      weaken (replied u) (held e) = held (find_by-key user_id_of user_id env.tables.users u e)

  new_key-made : Holds (λ p. p.1 ≡ made_key p.0 user_id) (new_key env s user user_id (some payload))
  unfolding new_key
  new_key-made = Holds-bind (target_user env user user_id) _ target_user-id λ target same.
      Holds-any (refuse_if (is_empty payload.name) 400) _
        λ u. Holds-any (or_500 s.random_secret) _ λ secret. held (ap (made_key secret) same)

  scope_again :
      (v c e d a : Bool)
      → let g = new_access_grant v c e d a in
        new_access_grant
          (has_access g 1)
          (has_access g 2)
          (has_access g 4)
          (has_access g 8)
          (has_access g 16)
        ≡ g
  scope_again v c e d a =
      roles_of-row_of
        (record { user_id = []; database_id = []; roles = new_access_grant v c e d a })
      ∙ new_access_grant_masked v c e d a

  expiry_again : (x : Option ℕ) → time_of (column_of (time_of_payload x)) ≡ time_of_payload x
  expiry_again none = refl
  expiry_again (some ms) = ap some (omega arith)

  read_back :
      (secret : Text) → key_of (key_row (made_key secret user_id) env.now) ≡ issued_key secret
  read_back secret =
      rw
        (
          scope_again payload.scope_view payload.scope_create payload.scope_edit
              payload.scope_delete payload.scope_admin,
          expiry_again payload.expires_at,
        )
        refl

  module _ (o : Outside) (later : KeyEnv) (owner : User) where
    -- The token logs its owner in with the rights that were asked for, until it expires.
    abbrev pub LogsIn : Text → KeyTable → Type 0
    LogsIn token t = validate_api_key (backed o s later t) token ≡ (
        if key_expired o.now (time_of_payload payload.expires_at)
        then err Error.failure
        else ok (owner, issued_key (drop 4 token)))

    row-LogsIn :
        (secret : Text) (t : KeyTable)
        → leb (length (codes "srv_" ++ secret)) 4 ≡ false
        → later.query_fails ≡ false
        → find_by user_id_of user_id later.tables.users ≡ some owner
        → find_by key_hash_of (s.sha256_hex secret) t
          ≡ some (key_row (made_key secret user_id) env.now)
        → LogsIn (codes "srv_" ++ secret) t
    unfolding validate_api_key get_api_key_with_owner_by_hash
    row-LogsIn secret t long works there row =
        rw (long, works, row, there)
          (ap
            (λ (k : ApiKey).
              if key_expired o.now k.expires_at then err Error.failure else ok (owner, k))
            (read_back secret))

    with_defaults-made :
        (secret : Text) → with_defaults env (made_key secret user_id) ≡ made_key secret user_id
    with_defaults-made secret = elim (Bool-cases (is_empty env.new_ulid)) [
      | inl e ↦ rw e refl
      | inr e ↦ rw e refl
    ]

    created-LogsIn :
        (secret : Text) (t : KeyTable) (r : Result ApiKey × KeyTable) (resp : ApiKeyResponse)
        (token : Text)
        → insert_key env (made_key secret user_id) t ≡ r
        → leb (length token) 4 ≡ false
        → later.query_fails ≡ false
        → find_by user_id_of user_id later.tables.users ≡ some owner
        → (key_created secret r).0 ≡ replied (resp, token)
        → LogsIn token (key_created secret r).1
    created-LogsIn secret t (err e, t') resp token same long works there h = cc h
    created-LogsIn secret t (ok k, t') resp token same long works there h =
        let own : codes "srv_" ++ secret ≡ token = ap token_of h in
        let (table, absent) = insert_key-row env (made_key secret user_id) t k t' same in
        subst (λ (tok : Text). LogsIn tok t') own
          (row-LogsIn secret t' (ap (λ (tok : Text). leb (length tok) 4) own ∙ long) works there (
            ap (find_by key_hash_of (s.sha256_hex secret)) table
            ∙ find_by-snoc key_hash_of (s.sha256_hex secret) t
                (key_row (made_key secret user_id) env.now)
                (has_key-Misses key_hash_of (s.sha256_hex secret) t absent)
            ∙ rw (text_eq_refl (s.sha256_hex secret)) refl))
      where
        token_of : Reply (ApiKeyResponse × Text) → Text
        token_of (refused status) = token
        token_of (replied (resp, tok)) = tok

    -- The token of a key that was just created logs its owner in, with the rights that were asked for,
    -- until the expiry that was asked for, if the owner is still there, the token has a secret and the
    -- query for the key works.
    pub post_key-login :
        (t : KeyTable) (resp : ApiKeyResponse) (token : Text)
        → leb (length token) 4 ≡ false
        → later.query_fails ≡ false
        → find_by user_id_of user_id later.tables.users ≡ some owner
        → (post_key env s user user_id (some payload) t).0 ≡ replied (resp, token)
        → LogsIn token (post_key env s user user_id (some payload) t).1
    unfolding post_key create_api_key
    post_key-login t resp token long works there h =
        split (new_key env s user user_id (some payload)) new_key-made h
      where
        split :
            (r : Reply (Text × ApiKey))
            → Holds (λ p. p.1 ≡ made_key p.0 user_id) r
            → (created_from env r t).0 ≡ replied (resp, token)
            → LogsIn token (created_from env r t).1
        split _ refusal h = cc h
        split (replied (secret, k)) (held same) h =
            let into : with_defaults env k ≡ made_key secret user_id =
              ap (with_defaults env) same ∙ with_defaults-made secret in
            created-LogsIn secret t (insert_key env (with_defaults env k) t) resp token
              (ap (λ (k : ApiKey). insert_key env k t) (sym into)) long works there h
