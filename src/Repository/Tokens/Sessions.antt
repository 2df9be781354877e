-- ===== src/Repository/Tokens/Sessions.antt =====
-- The token table as a map from hashes to tokens.
use mathlib.Core.Path.{subst}
use media_hub_oss.Prelude.{
  ℕ, ◌≡◌, refl, sym, ◌∙◌, ap, arith, Bool, true, false, not, ◌||◌, ltb, if◌then◌else◌, Option, none,
  some, [], ◌∷◌, ◌++◌, filter, Result, ok, err, Error, Bool-cases, inl, inr,
}
use media_hub_oss.Prelude.Text.{Text, text_eq, text_eq→≡, text_eq_refl}
use media_hub_oss.Repository.Tokens.{
  Token, Tokens, TokenEnv, milliseconds, find_token, is_taken, live_user, validate_refresh_token,
  new_token, store_refresh_token, deleted, some_deleted, delete_refresh_token,
  delete_expired_refresh_tokens, delete_all_refresh_tokens_for_user,
}

-- No hash twice.
abbrev pub Distinct : Tokens → Type 0
Distinct [] = Unit {0}
Distinct (t ∷ ts) = (find_token t.token_hash ts ≡ none) × Distinct ts

-- A token that passes.
abbrev pub kept : (Token → Bool) → Option Token → Option Token
kept keep none = none
kept keep (some t) = if keep t then some t else none

find_token-filter :
    (keep : Token → Bool) (h : Text) (ts : Tokens)
    → Distinct ts
    → find_token h (filter keep ts) ≡ kept keep (find_token h ts)
unfolding find_token
find_token-filter keep h [] d = refl
find_token-filter keep h (t ∷ ts) d = elim (Bool-cases (text_eq t.token_hash h)) [
  | inr e ↦ ground (arith, e, find_token-filter keep h ts d.1)
  | inl e ↦
      let absent : find_token h ts ≡ none =
        sym (ap (λ k. find_token k ts) (text_eq→≡ t.token_hash h e)) ∙ d.0 in
      ground (arith, e, absent, find_token-filter keep h ts d.1)
]

filter-Distinct : (keep : Token → Bool) (ts : Tokens) → Distinct ts → Distinct (filter keep ts)
filter-Distinct keep [] d = tt
filter-Distinct keep (t ∷ ts) d =
    split (keep t) (find_token-filter keep t.token_hash ts d.1 ∙ ap (kept keep) d.0)
      (filter-Distinct keep ts d.1)
  where
    split :
        (b : Bool)
        → find_token t.token_hash (filter keep ts) ≡ none
        → Distinct (filter keep ts)
        → Distinct (if b then t ∷ filter keep ts else filter keep ts)
    split true absent rest = (absent, rest)
    split false absent rest = rest

find_token-snoc :
    (h : Text) (ts : Tokens) (n : Token)
    → find_token n.token_hash ts ≡ none
    → find_token h (ts ++ (n ∷ [])) ≡ (if text_eq n.token_hash h then some n else find_token h ts)
unfolding find_token
find_token-snoc h [] n absent = refl
find_token-snoc h (t ∷ ts) n absent = elim (Bool-cases (text_eq n.token_hash h)) [
  | inr e ↦ ground (arith, e, absent, find_token-snoc h ts n)
  | inl e ↦
      let absent_here : find_token h (t ∷ ts) ≡ none =
        sym (ap (λ k. find_token k (t ∷ ts)) (text_eq→≡ n.token_hash h e)) ∙ absent in
      ground (arith, e, absent, absent_here, find_token-snoc h ts n)
]

snoc-Distinct :
    (ts : Tokens) (n : Token)
    → Distinct ts
    → find_token n.token_hash ts ≡ none
    → Distinct (ts ++ (n ∷ []))
unfolding find_token
snoc-Distinct [] n d absent = (refl, tt)
snoc-Distinct (t ∷ ts) n d absent =
    (first (text_eq n.token_hash t.token_hash) refl, snoc-Distinct ts n d.1 (absent_rest absent))
  where
    absent_rest : find_token n.token_hash (t ∷ ts) ≡ none → find_token n.token_hash ts ≡ none
    absent_rest a = ground (arith, a)

    first :
        (b : Bool)
        → text_eq n.token_hash t.token_hash ≡ b
        → find_token t.token_hash (ts ++ (n ∷ [])) ≡ none
    first true e =
        let same = text_eq→≡ n.token_hash t.token_hash e in
        cc (ap (λ k. find_token k (t ∷ ts)) same, found, absent)
      where
        found : find_token t.token_hash (t ∷ ts) ≡ some t
        found = ground (arith, text_eq_refl t.token_hash)
    first false e = find_token-snoc t.token_hash ts n (absent_rest absent) ∙ ground (arith, e, d.0)

-- What the operations mean for the map.
pub data TokenOp : Type 0 where
  store : (user_id token_hash : Text) → ℕ → TokenOp
  delete : Text → TokenOp
  delete_expired : TokenOp
  delete_all_for_user : Text → TokenOp

abbrev pub tokens_after : TokenEnv → TokenOp → Tokens → Tokens
tokens_after env (store u h valid) ts = (store_refresh_token env u h valid ts).1
tokens_after env (delete h) ts = (delete_refresh_token env h ts).1
tokens_after env delete_expired ts = (delete_expired_refresh_tokens env ts).1
tokens_after env (delete_all_for_user u) ts = (delete_all_refresh_tokens_for_user env u ts).1

abbrev stored : TokenEnv → Text → Text → ℕ → Text → Option Token → Option Token → Option Token
stored env u h valid k taken old =
    if env.exec_fails || (is_taken taken || not (env.user_exists u))
    then old
    else if text_eq h k
    then some (new_token env u h valid)
    else old

-- The token of the hash `k` after an operation.
abbrev pub session_after : TokenEnv → TokenOp → (Text → Option Token) → Text → Option Token
session_after env (store u h valid) sessions k = stored env u h valid k (sessions h) (sessions k)
session_after env (delete h) sessions k =
    if env.exec_fails then sessions k else kept (λ t. not (text_eq t.token_hash h)) (sessions k)
session_after env delete_expired sessions k =
    if env.exec_fails
    then sessions k
    else kept (λ t. not (ltb t.expiry (milliseconds env.now))) (sessions k)
session_after env (delete_all_for_user u) sessions k =
    if env.exec_fails then sessions k else kept (λ t. not (text_eq t.user_id u)) (sessions k)

abbrev pub sessions_of : Tokens → Text → Option Token
sessions_of ts k = find_token k ts

pub record Refines (env : TokenEnv) (op : TokenOp) (ts : Tokens) : Type 0 where
  pub distinct : Distinct (tokens_after env op ts)
  pub sessions :
      (k : Text) → sessions_of (tokens_after env op ts) k ≡ session_after env op (sessions_of ts) k
  -- a later check answers from the map, with the expiry
  pub validated :
      (later : TokenEnv) (k : Text)
      → validate_refresh_token later k (tokens_after env op ts) ≡ (
          if later.query_fails
          then err Error.failure
          else live_user later.now (session_after env op (sessions_of ts) k))

refined :
    (env : TokenEnv) (op : TokenOp) (ts : Tokens)
    → Distinct (tokens_after env op ts)
    → ((k : Text)
        → sessions_of (tokens_after env op ts) k ≡ session_after env op (sessions_of ts) k)
    → Refines env op ts
unfolding validate_refresh_token
refined env op ts d sessions = record {
  distinct = d;
  sessions = sessions;
  validated = λ later k.
      ap
        (λ (o : Option Token).
          if later.query_fails then err Error.failure else live_user later.now o)
        (sessions k);
}

some_deleted-tokens : (r : Result ℕ × Tokens) → (some_deleted r).1 ≡ r.1
some_deleted-tokens (ok n, ts) = refl
some_deleted-tokens (err e, ts) = refl

deleted-tokens :
    (env : TokenEnv) (keep : Token → Bool) (ts : Tokens)
    → (deleted env keep ts).1 ≡ (if env.exec_fails then ts else filter keep ts)
deleted-tokens env keep ts = ground arith

filtered :
    (env : TokenEnv) (keep : Token → Bool) (ts : Tokens)
    → Distinct ts
    → let left : Tokens = if env.exec_fails then ts else filter keep ts in
      Distinct left
      × ((k : Text)
          → find_token k left
            ≡ (if env.exec_fails then find_token k ts else kept keep (find_token k ts)))
filtered env keep ts d = split env.exec_fails
  where
    split :
        (b : Bool)
        → Distinct (if b then ts else filter keep ts)
          × ((k : Text)
              → find_token k (if b then ts else filter keep ts)
                ≡ (if b then find_token k ts else kept keep (find_token k ts)))
    split true = (d, λ k. refl)
    split false = (filter-Distinct keep ts d, λ k. find_token-filter keep k ts d)

-- A deletion, from what it leaves.
by_filter :
    (env : TokenEnv) (op : TokenOp) (keep : Token → Bool) (ts : Tokens)
    → Distinct ts
    → tokens_after env op ts ≡ (if env.exec_fails then ts else filter keep ts)
    → ((k : Text)
        → session_after env op (sessions_of ts) k
          ≡ (if env.exec_fails then find_token k ts else kept keep (find_token k ts)))
    → Refines env op ts
by_filter env op keep ts d left meaning =
    let (distinct, found) = filtered env keep ts d in
    refined env op ts (subst Distinct (sym left) distinct)
      λ k. ap (find_token k) left ∙ found k ∙ sym (meaning k)

store-Refines :
    (env : TokenEnv) (u h : Text) (valid : ℕ) (ts : Tokens)
    → Distinct ts
    → Refines env (store u h valid) ts
unfolding store_refresh_token
store-Refines env u h valid ts d =
    let (distinct, sessions) =
      split (env.exec_fails || (is_taken (find_token h ts) || not (env.user_exists u))) refl in
    refined env (store u h valid) ts distinct sessions
  where
    n : Token
    n = new_token env u h valid

    split :
        (b : Bool)
        → (env.exec_fails || (is_taken (find_token h ts) || not (env.user_exists u))) ≡ b
        → let o : Result (Unit {0}) × Tokens =
            if b then (err Error.failure, ts) else (ok tt, ts ++ (n ∷ [])) in
          Distinct o.1
          × ((k : Text)
              → find_token k o.1
                ≡ (if b then find_token k ts else if text_eq h k then some n else find_token k ts))
    split true e = (d, λ k. refl)
    split false e =
        let absent : find_token h ts ≡ none = ground (arith, e) in
        (snoc-Distinct ts n d absent, λ k. find_token-snoc k ts n absent)

-- The table of refresh tokens, with each hash at most once, refines a map from hashes to tokens:
-- every operation keeps the hashes distinct and changes the map as its name says, or not at all
-- where its statement fails or the new token's hash is taken or its user is missing; a later check of
-- a token answers from the map, with the expiry.
pub tokens_after-Refines :
    (env : TokenEnv) (op : TokenOp) (ts : Tokens) → Distinct ts → Refines env op ts
unfolding delete_refresh_token delete_expired_refresh_tokens delete_all_refresh_tokens_for_user
tokens_after-Refines env (store u h valid) ts d = store-Refines env u h valid ts d
tokens_after-Refines env (delete h) ts d =
    by_filter env (delete h) (λ t. not (text_eq t.token_hash h)) ts d
      (some_deleted-tokens (deleted env (λ t. not (text_eq t.token_hash h)) ts)
        ∙ deleted-tokens env (λ t. not (text_eq t.token_hash h)) ts)
      λ k. refl
tokens_after-Refines env delete_expired ts d =
    by_filter env delete_expired (λ t. not (ltb t.expiry (milliseconds env.now))) ts d
      (deleted-tokens env (λ t. not (ltb t.expiry (milliseconds env.now))) ts) λ k. refl
tokens_after-Refines env (delete_all_for_user u) ts d =
    by_filter env (delete_all_for_user u) (λ t. not (text_eq t.user_id u)) ts d (ground arith)
      λ k. refl
