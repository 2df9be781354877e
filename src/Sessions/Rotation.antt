-- ===== src/Sessions/Rotation.antt =====
-- internal/httpserver/tokenhandler/token.go: what refreshing does to the sessions there are.
use media_hub_oss.Prelude.{
  ℕ, ◌≡◌, refl, sym, ap, ◌∙◌, arith, false, not, ◌||◌, if◌then◌else◌, none, some, [], ◌∷◌, Result,
  ok, err, Error, Bool-cases, inl, inr,
}
use media_hub_oss.Prelude.Text.{Text, text_eq, is_empty, text_eq→≡}
use mathlib.Core.Path.{subst}
use media_hub_oss.Prelude.Keyed.{text_eq_sym}
use media_hub_oss.Repository.Tokens.{
  Token, Tokens, TokenEnv, find_token, is_taken, new_token, live_user, validate_refresh_token,
  store_refresh_token, delete_refresh_token,
}
use media_hub_oss.Repository.Tokens.Sessions.{Distinct, store, delete, tokens_after-Refines, kept}
use media_hub_oss.Users.Replies.{Reply, replied}
use media_hub_oss.Sessions.{
  Issuer, Calls, TokenResponse, hash_token, stored_pair, refresh_pair, signed_pair, generate_tokens,
  pair_reply, refresh_token,
}

-- What a later check of the hash `k` answers once `old` has been exchanged for `new`.
abbrev pub check_after : TokenEnv → Text → Text → Token → Text → Tokens → Result Text
check_after later k old new h ts =
    if later.query_fails
    then err Error.failure
    else live_user later.now
        (if text_eq h k then some new else if text_eq old k then none else find_token k ts)

-- A pair is issued only with its token in the table.
abbrev Stored : Issuer → TokenEnv → Text → Tokens → TokenResponse → Tokens → Type 0
Stored i env u ts pair after =
    let r = store_refresh_token env u (hash_token i pair.refresh_token) i.refresh_duration ts in
    (after ≡ r.1) × (r.0 ≡ ok tt)

generate_tokens-Stored :
    (i : Issuer) (env : TokenEnv) (u : Text) (ts : Tokens) (pair : TokenResponse)
    → (generate_tokens i env u ts).0 ≡ ok pair
    → Stored i env u ts pair (generate_tokens i env u ts).1
unfolding generate_tokens
generate_tokens-Stored i env u ts pair h = signed (i.sign u) h
  where
    stored :
        (access refresh : Text) (r : Result (Unit {0}) × Tokens)
        → store_refresh_token env u (hash_token i refresh) i.refresh_duration ts ≡ r
        → (stored_pair access refresh r).0 ≡ ok pair
        → Stored i env u ts pair (stored_pair access refresh r).1
    stored access refresh (err e, ts') same h = cc h
    stored access refresh (ok done, ts') same h =
        let own : refresh ≡ pair.refresh_token = ap refresh_of h in
        subst
          (λ (f : Text).
            let r = store_refresh_token env u (hash_token i f) i.refresh_duration ts in
            (ts' ≡ r.1) × (r.0 ≡ ok tt))
          own (sym (ap second same), ap first same)
      where
        refresh_of : Result TokenResponse → Text
        refresh_of (err e) = refresh
        refresh_of (ok p) = p.refresh_token

        first : Result (Unit {0}) × Tokens → Result (Unit {0})
        first (r, ts) = r

        second : Result (Unit {0}) × Tokens → Tokens
        second (r, ts) = ts

    random :
        (access : Text) (r : Result Text)
        → (refresh_pair i env u access r ts).0 ≡ ok pair
        → Stored i env u ts pair (refresh_pair i env u access r ts).1
    random access (err e) h = cc h
    random access (ok refresh) h =
        stored access refresh
          (store_refresh_token env u (hash_token i refresh) i.refresh_duration ts) refl h

    signed :
        (a : Result Text)
        → (signed_pair i env u a ts).0 ≡ ok pair
        → Stored i env u ts pair (signed_pair i env u a ts).1
    signed (err e) h = cc h
    signed (ok access) h = random access i.random_token h

find_token-hash :
    (k : Text) (ts : Tokens) (keep : Text)
    → kept (λ t. not (text_eq t.token_hash keep)) (find_token k ts)
      ≡ (if text_eq keep k then none else find_token k ts)
unfolding find_token
find_token-hash k [] keep = ground arith
find_token-hash k (t ∷ ts) keep = elim (Bool-cases (text_eq t.token_hash k)) [
  | inr e ↦ rw e (find_token-hash k ts keep)
  | inl e ↦
      let same : text_eq t.token_hash keep ≡ text_eq keep k =
        ap (λ h. text_eq h keep) (text_eq→≡ t.token_hash k e) ∙ text_eq_sym k keep in
      elim (Bool-cases (text_eq keep k)) [
        | inl f ↦ rw (e, same, f) refl
        | inr f ↦ rw (e, same, f) refl
      ]
]

-- The two statements of a successful exchange.
exchanged :
    (del env : TokenEnv) (old new u : Text) (valid : ℕ) (ts : Tokens) (later : TokenEnv) (k : Text)
    → Distinct ts
    → del.exec_fails ≡ false
    → (store_refresh_token env u new valid (delete_refresh_token del old ts).1).0 ≡ ok tt
    → validate_refresh_token later k
        (store_refresh_token env u new valid (delete_refresh_token del old ts).1).1
      ≡ check_after later k old (new_token env u new valid) new ts
unfolding store_refresh_token
exchanged del env old new u valid ts later k d works done =
    let gone = tokens_after-Refines del (delete old) ts d in
    let left = (delete_refresh_token del old ts).1 in
    let put = tokens_after-Refines env (store u new valid) left gone.distinct in
    elim (Bool-cases
      (env.exec_fails || (is_taken (find_token new left) || not (env.user_exists u)))) [
        | inl e ↦ absurd (ground (arith, e, done))
        | inr e ↦
            put.validated later k
            ∙ ap (λ o. if later.query_fails then err Error.failure else live_user later.now o)
                (rw (e, gone.sessions k, works) (rw (find_token-hash k ts old) refl))
      ]

pair_reply-ok :
    (r : Result TokenResponse × Tokens) (pair : TokenResponse)
    → (pair_reply r).0 ≡ replied pair
    → (r.0 ≡ ok pair) × ((pair_reply r).1 ≡ r.1)
pair_reply-ok (err e, ts) pair h = cc h
pair_reply-ok (ok p, ts) pair h = (cc h, refl)

-- In a table with each hash at most once, a successful exchange of a refresh token, whose deletion
-- works, leaves exactly these sessions: the new token is good for the same user until it expires, the
-- old one, if it is another, is no longer good, and every other token is as good as before.
pub refresh_token-rotates :
    (i : Issuer) (calls : Calls) (token u : Text) (ts : Tokens) (pair : TokenResponse)
    (later : TokenEnv) (k : Text)
    → Distinct ts
    → calls.deleting.exec_fails ≡ false
    → validate_refresh_token calls.validating (hash_token i token) ts ≡ ok u
    → (refresh_token i calls (some token) ts).0 ≡ replied pair
    → validate_refresh_token later k (refresh_token i calls (some token) ts).1
      ≡ check_after later k
          (hash_token i token)
          (new_token calls.storing u (hash_token i pair.refresh_token) i.refresh_duration)
          (hash_token i pair.refresh_token)
          ts
unfolding refresh_token
refresh_token-rotates i calls token u ts pair later k d works valid h =
    elim (Bool-cases (is_empty token)) [
      | inl e ↦ absurd (ground (arith, e, h))
      | inr e ↦
          let same = opened e in
          let (made, left_by) = pair_reply-ok issued pair (ap first (sym same) ∙ h) in
          let (after, put) = generate_tokens-Stored i calls.storing u left pair made in
          ap (validate_refresh_token later k) (ap second same ∙ left_by ∙ after)
          ∙ exchanged calls.deleting calls.storing (hash_token i token)
              (hash_token i pair.refresh_token) u i.refresh_duration ts later k d works put
    ]
  where
    left : Tokens
    left = (delete_refresh_token calls.deleting (hash_token i token) ts).1

    issued : Result TokenResponse × Tokens
    issued = generate_tokens i calls.storing u left

    opened : is_empty token ≡ false → refresh_token i calls (some token) ts ≡ pair_reply issued
    opened e = rw (e, valid) refl

    first : Reply TokenResponse × Tokens → Reply TokenResponse
    first (r, ts) = r

    second : Reply TokenResponse × Tokens → Tokens
    second (r, ts) = ts
