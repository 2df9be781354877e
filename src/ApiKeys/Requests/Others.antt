-- ===== src/ApiKeys/Requests/Others.antt =====
-- internal/httpserver/userhandler/api_keys.go: the handlers of one user's path and the other keys.
use media_hub_oss.Prelude.{
  ◌≡◌, refl, sym, ap, ◌∙◌, arith, true, false, not, ◌||◌, Option, none, some, [], ◌∷◌, ◌++◌, Result,
  ok, err, Bool-cases, Option-cases, inl, inr,
}
use media_hub_oss.Prelude.Text.{Text, text_eq, text_eq→≡}
use media_hub_oss.Prelude.Keyed.{find_by, find_by-key, find_by-without, without, has_key}
use media_hub_oss.Access.Accounts.{User, ApiKey}
use media_hub_oss.Users.{user_id_of}
use media_hub_oss.Users.Replies.{Reply, refused, replied, refuse_if, ◌>>=◌, decoded}
use media_hub_oss.Users.Requests.Decisions.{Holds, held, refusal, Holds-bind, refuse_if-Holds}
use media_hub_oss.ApiKeys.{
  KeyRow, KeyTable, KeyEnv, key_id_of, key_hash_of, key_row, with_defaults, creation_time,
  insert_key, create_api_key, get_api_key_by_id, one_row, set_row, updated_row, update_api_key,
  delete_api_key, key_result,
}
use media_hub_oss.ApiKeys.Requests.{
  CreateApiKeyPayload, UpdateApiKeyPayload, Secrets, new_key, key_created, created_from, post_key,
  own_key, changed_key, updated_from, key_updated, patch_key, key_deleted, deleted_from, remove_key,
}

-- A request that writes, on the path of a user.
pub data KeyRequest : Type 0 where
  create : User → Option CreateApiKeyPayload → KeyRequest
  update : Text → Option UpdateApiKeyPayload → KeyRequest
  delete : Text → KeyRequest

abbrev pub serve_key : KeyEnv → Secrets → Text → KeyRequest → KeyTable → KeyTable
serve_key env s user_id (create user body) t = (post_key env s user user_id body t).1
serve_key env s user_id (update key_id body) t = (patch_key env user_id key_id body t).1
serve_key env s user_id (delete key_id) t = (remove_key env user_id key_id t).1

-- A row that stays as it is.
abbrev Keeps : KeyRow → KeyTable → Type 0
Keeps r t = find_by key_id_of r.id t ≡ some r

find_by-snoc_old :
    (k : Text) (r n : KeyRow) (t : KeyTable)
    → find_by key_id_of k t ≡ some r
    → find_by key_id_of k (t ++ (n ∷ [])) ≡ some r
find_by-snoc_old k r n [] h = cc h
find_by-snoc_old k r n (x ∷ t) h = elim (Bool-cases (text_eq x.id k)) [
  | inl e ↦ ground (arith, e, h)
  | inr e ↦ ground (arith, e, find_by-snoc_old k r n t (ground (arith, e, h)))
]

find_by-set_row :
    (f : KeyRow → KeyRow) (k j : Text) (t : KeyTable)
    → ((x : KeyRow) → (f x).id ≡ x.id)
    → text_eq k j ≡ false
    → find_by key_id_of j (set_row f k t) ≡ find_by key_id_of j t
find_by-set_row f k j [] same e = refl
find_by-set_row f k j (x ∷ t) same e = elim (Bool-cases (text_eq x.id k)) [
  | inl h ↦
      let other : text_eq x.id j ≡ false = ap (λ i. text_eq i j) (text_eq→≡ x.id k h) ∙ e in
      let moved : text_eq (f x).id j ≡ false = ap (λ i. text_eq i j) (same x) ∙ other in
      rw (h, other, moved) (find_by-set_row f k j t same e)
  | inr h ↦ ground (arith, h, find_by-set_row f k j t same e)
]

insert_key-Keeps :
    (env : KeyEnv) (k : ApiKey) (r : KeyRow) (t : KeyTable)
    → Keeps r t
    → Keeps r (insert_key env k t).1
insert_key-Keeps env k r t h = elim (Bool-cases env.exec_fails) [
  | inl e ↦ rw e h
  | inr e ↦ elim (Bool-cases (has_key key_id_of k.id t || has_key key_hash_of k.key_hash t)) [
    | inl f ↦ rw (e, f) h
    | inr f ↦ elim (Bool-cases (has_key user_id_of k.user_id env.tables.users)) [
      | inl g ↦
          rw (e, f, g) (find_by-snoc_old r.id r (key_row k (creation_time env k.created_at)) t h)
      | inr g ↦ rw (e, f, g) h
    ]
  ]
]

one_row-Keeps :
    (env : KeyEnv) (id : Text) (r : KeyRow) (t after : KeyTable)
    → Keeps r t
    → Keeps r after
    → Keeps r (one_row env id t after).1
one_row-Keeps env id r t after h k = elim (Bool-cases env.exec_fails) [
  | inl e ↦ rw e h
  | inr e ↦ elim (Bool-cases env.result_fails) [ inl f ↦ rw (e, f) k | inr f ↦ rw (e, f) k ]
]

-- A key of the path is the user's own, so it is not another's.
module _ (env : KeyEnv) (user_id : Text) (r : KeyRow) (t : KeyTable) (h : Keeps r t)
    (other : text_eq r.user_id user_id ≡ false) where
  own_key-Other :
      (key_id : Text)
      → Holds (λ k. (k.id ≡ key_id) × (text_eq key_id r.id ≡ false)) (own_key env user_id key_id t)
  unfolding own_key get_api_key_by_id
  own_key-Other key_id = elim (Bool-cases env.query_fails) [
    | inl e ↦ rw e refusal
    | inr e ↦ elim (Option-cases (find_by key_id_of key_id t)) [
      | inl f ↦ rw (e, f) refusal
      | inr (x, f) ↦
          rw (e, f)
            (Holds-bind (refuse_if (not (text_eq x.user_id user_id)) 404) _
              (refuse_if-Holds (not (text_eq x.user_id user_id)) 404)
              λ u mine. held (find_by-key key_id_of key_id t x f, apart x f (ground (arith, mine))))
    ]
  ]
    where
      apart :
          (x : KeyRow)
          → find_by key_id_of key_id t ≡ some x
          → text_eq x.user_id user_id ≡ true
          → text_eq key_id r.id ≡ false
      apart x f mine = elim (Bool-cases (text_eq key_id r.id)) [
        | inr e ↦ e
        | inl e ↦
            let same : some x ≡ some r =
              sym f ∙ ap (λ i. find_by key_id_of i t) (text_eq→≡ key_id r.id e) ∙ h in
            let owner : x.user_id ≡ r.user_id = ap owner_of same in
            absurd (ground (arith, mine, other, ap (λ i. text_eq i user_id) owner))
      ]
        where
          owner_of : Option KeyRow → Text
          owner_of none = []
          owner_of (some x) = x.user_id

  update-Keeps :
      (key_id : Text) (body : Option UpdateApiKeyPayload)
      → Keeps r (patch_key env user_id key_id body t).1
  unfolding patch_key update_api_key changed_key
  update-Keeps key_id body = split (own_key env user_id key_id t) (own_key-Other key_id)
    where
      written : (res : Result ApiKey × KeyTable) → Keeps r res.1 → Keeps r (key_updated res).1
      written (err e, t') k = k
      written (ok x, t') k = k

      result :
          (k : ApiKey) (res : Result (Unit {0}) × KeyTable)
          → Keeps r res.1
          → Keeps r (key_result k res).1
      result k (err e, t') q = q
      result k (ok done, t') q = q

      payload :
          (k : ApiKey) (b : Option UpdateApiKeyPayload)
          → text_eq k.id r.id ≡ false
          → Keeps r (updated_from env (decoded b >>= λ p. replied (changed_key p k)) t).1
      payload k none e = h
      payload k (some p) e =
          let new = changed_key p k in
          written (update_api_key env new t) (
            result new (one_row env k.id t (set_row (updated_row new) k.id t)) (
              one_row-Keeps env k.id r t (set_row (updated_row new) k.id t) h
                (find_by-set_row (updated_row new) k.id r.id t (λ x. refl) e ∙ h)))

      split :
          (o : Reply ApiKey)
          → Holds (λ k. (k.id ≡ key_id) × (text_eq key_id r.id ≡ false)) o
          → Keeps r
              (updated_from env (o >>= λ k. decoded body >>= λ p. replied (changed_key p k)) t).1
      split _ refusal = h
      split (replied k) (held (same, apart)) =
          payload k body (ap (λ i. text_eq i r.id) same ∙ apart)

  delete-Keeps : (key_id : Text) → Keeps r (remove_key env user_id key_id t).1
  unfolding remove_key delete_api_key
  delete-Keeps key_id = split (own_key env user_id key_id t) (own_key-Other key_id)
    where
      written :
          (k : ApiKey) (res : Result (Unit {0}) × KeyTable)
          → Keeps r res.1
          → Keeps r (key_deleted k res).1
      written k (err e, t') q = q
      written k (ok x, t') q = q

      split :
          (o : Reply ApiKey)
          → Holds (λ k. (k.id ≡ key_id) × (text_eq key_id r.id ≡ false)) o
          → Keeps r (deleted_from env key_id o t).1
      split _ refusal = h
      split (replied k) (held (same, apart)) = written k (delete_api_key env key_id t) (
          one_row-Keeps env key_id r t (without key_id_of key_id t) h
            (find_by-without key_id_of key_id r.id t ∙ rw apart h))

create-Keeps :
    (env : KeyEnv) (s : Secrets) (user_id : Text) (user : User) (body : Option CreateApiKeyPayload)
    (r : KeyRow) (t : KeyTable)
    → Keeps r t
    → Keeps r (post_key env s user user_id body t).1
unfolding post_key create_api_key
create-Keeps env s user_id user body r t h = split (new_key env s user user_id body)
  where
    written :
        (secret : Text) (res : Result ApiKey × KeyTable)
        → Keeps r res.1
        → Keeps r (key_created secret res).1
    written secret (err e, t') q = q
    written secret (ok x, t') q = q

    split : (o : Reply (Text × ApiKey)) → Keeps r (created_from env o t).1
    split (refused status) = h
    split (replied (secret, k)) =
        written secret (create_api_key env k t) (insert_key-Keeps env (with_defaults env k) r t h)

-- Whatever a request on one user's path does to keys, and whether it succeeds or not, a key of any
-- other user stays as it is.
pub serve_key-keeps :
    (env : KeyEnv) (s : Secrets) (user_id : Text) (q : KeyRequest) (r : KeyRow) (t : KeyTable)
    → find_by key_id_of r.id t ≡ some r
    → text_eq r.user_id user_id ≡ false
    → find_by key_id_of r.id (serve_key env s user_id q t) ≡ some r
serve_key-keeps env s user_id (create user body) r t h other =
    create-Keeps env s user_id user body r t h
serve_key-keeps env s user_id (update key_id body) r t h other =
    update-Keeps env user_id r t h other key_id body
serve_key-keeps env s user_id (delete key_id) r t h other =
    delete-Keeps env user_id r t h other key_id
