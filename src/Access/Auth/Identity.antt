-- ===== src/Access/Auth/Identity.antt =====
-- Whom AuthMiddleware lets in.
use mathlib.Core.Path.{subst}
use media_hub_oss.Prelude.{
  if◌then◌else◌, ℕ, ◌≤◌, ◌≡◌, refl, ap, ◌∙◌, arith, Bool, true, false, ◌||◌, some, Result, ok,
  Result-cases, Option-cases, Bool-cases, inl, inr, drop, elem, length, [], ◌∷◌, ◌++◌, ◌==◌, ==_iff,
}
use media_hub_oss.Prelude.Answers.{Answers, answer, refusal, Answers-self, Answers-ok}
use media_hub_oss.Prelude.Text.{Text, codes, text_eq, to_lower, has_prefix, is_empty}
use media_hub_oss.Access.Accounts.{User, ApiKey, is_service_account, is_oidc}
use media_hub_oss.Access.Holders.{Holder}
use media_hub_oss.Access.Auth.{
  Claims, Outside, Request, cut, extract_auth_credentials, live_claims, validate_jwt,
  validate_credentials, validate_basic_auth, key_expired, validate_api_key, no_key, without_key,
  authenticate_request, is_some_time, cache_user_permissions, auth_middleware,
}

-- The credentials that a request carries: the Authorization header up to its first space and from
-- there on, or, where there is no header, the token of the query.
pub data Presents (r : Request) : Text → Text → Type 0 where
  in_header :
      (schema value : Text)
      → r.authorization ≡ schema ++ b' ' ∷ value
      → elem b' ' schema ≡ false
      → Presents r schema value
  in_query :
      is_empty r.authorization ≡ true
      → is_empty r.query_token ≡ false
      → Presents r (codes "Bearer") r.query_token

-- Ways for a request to prove whose it is: a live API key, a live signed token, or a name and a
-- password, which are not for service accounts and OIDC accounts.
pub data Proven (o : Outside) (r : Request) (user : User) : ApiKey → Type 0 where
  by_key :
      {key : ApiKey} (schema secret : Text)
      → Presents r schema (codes "srv_" ++ secret)
      → text_eq (to_lower schema) (codes "bearer") ≡ true
      → o.key_with_owner (o.sha256_hex secret) ≡ ok (key, user)
      → key_expired o.now key.expires_at ≡ false
      → Proven o r user key
  by_token :
      (schema token : Text) (claims : Claims) (subject : Text)
      → Presents r schema token
      → text_eq (to_lower schema) (codes "bearer") ≡ true
      → has_prefix token (codes "srv_") ≡ false
      → o.parse_jwt token ≡ ok claims
      → claims.valid ≡ true
      → (exp : ℕ) → claims.expires_at ≡ some exp
      → o.now ≤ exp
      → claims.subject ≡ some subject
      → o.user_by_id subject ≡ ok user
      → Proven o r user no_key
  by_password :
      (schema encoded username password : Text)
      → Presents r schema encoded
      → text_eq (to_lower schema) (codes "basic") ≡ true
      → o.decode_base64 encoded ≡ some (username ++ b':' ∷ password)
      → elem b':' username ≡ false
      → o.user_by_username username ≡ ok user
      → (is_service_account user || is_oidc user) ≡ false
      → o.password_matches user.password_hash password ≡ true
      → Proven o r user no_key

cut_split :
    (sep : ℕ) (s : Text) (p : Text × Text)
    → cut sep s ≡ some p
    → (s ≡ p.0 ++ sep ∷ p.1) × (elem sep p.0 ≡ false)
cut_split sep [] p h = cc h
cut_split sep (c ∷ s) p h = elim (Bool-cases (c == sep)) [
  | inl e ↦
      let q : p ≡ ([], s) = ground (arith, e, h) in
      rw q (ap (λ k. k ∷ s) ((==_iff c sep).0 e), refl)
  | inr e ↦ elim (Option-cases (cut sep s)) [
    | inl none_left ↦ absurd (ground (arith, e, none_left, h))
    | inr (t, found) ↦
        let q : p ≡ (c ∷ t.0, t.1) = ground (arith, e, found, h) in
        let again = cut_split sep s t found in
        rw q (ap (λ l. c ∷ l) again.0, ground (arith, e, again.1))
  ]
]

has_prefix_split : (s p : Text) → has_prefix s p ≡ true → s ≡ p ++ drop (length p) s
unfolding has_prefix
has_prefix_split s [] h = refl
has_prefix_split [] (y ∷ p) h = ground (arith, h)
has_prefix_split (x ∷ s) (y ∷ p) h = ground (arith, h, has_prefix_split s p)

extract_auth_credentials-Presents :
    (r : Request) (c : Text × Text) → extract_auth_credentials r ≡ ok c → Presents r c.0 c.1
unfolding extract_auth_credentials
extract_auth_credentials-Presents r c h = elim (Bool-cases (is_empty r.authorization)) [
  | inl no_header ↦ elim (Bool-cases (is_empty r.query_token)) [
    | inl nothing ↦ absurd (ground (arith, no_header, nothing, h))
    | inr given ↦
        let q : c ≡ (codes "Bearer", r.query_token) = ground (arith, no_header, given, h) in
        rw q (in_query no_header given)
  ]
  | inr header ↦ elim (Option-cases (cut b' ' r.authorization)) [
    | inl no_space ↦ absurd (ground (arith, header, no_space, h))
    | inr (p, found) ↦
        let q : c ≡ p = ground (arith, header, found, h) in
        let split = cut_split b' ' r.authorization p found in
        rw q (in_header p.0 p.1 split.0 split.1)
  ]
]

module _ (o : Outside) (r : Request) where
  api_key-Proven :
      (schema token : Text) (user : User) (key : ApiKey)
      → Presents r schema token
      → text_eq (to_lower schema) (codes "bearer") ≡ true
      → has_prefix token (codes "srv_") ≡ true
      → validate_api_key o token ≡ ok (user, key)
      → Proven o r user key
  unfolding validate_api_key
  api_key-Proven schema token user key shown bearer srv h =
      by_key schema (drop 4 token)
        (subst (λ (t : Text). Presents r schema t) (has_prefix_split token (codes "srv_") srv)
          shown)
        bearer (ground (arith, h)) (ground (arith, h))

  live_claims_lem :
      (claims : Claims) (subject : Text)
      → live_claims o claims ≡ ok subject
      → (exp : ℕ) × (claims.expires_at ≡ some exp) × (o.now ≤ exp) × (claims.subject ≡ some subject)
  live_claims_lem claims subject h = elim (Option-cases claims.expires_at) [
    | inl e ↦ absurd (ground (arith, e, h))
    | inr (exp, e) ↦ elim (Option-cases claims.subject) [
      | inl none_given ↦ absurd (ground (arith, e, none_given, h))
      | inr (s, given) ↦ (exp, e, ground (arith, e, h), ground (arith, e, given, h))
    ]
  ]

  jwt-Proven :
      (schema token : Text)
      → Presents r schema token
      → text_eq (to_lower schema) (codes "bearer") ≡ true
      → has_prefix token (codes "srv_") ≡ false
      → Answers (λ user. Proven o r user no_key) (validate_jwt o token)
  unfolding validate_jwt
  jwt-Proven schema token shown bearer plain = Answers-self _ λ user h.
      elim (Result-cases (o.parse_jwt token)) [
        | inr (e, eq) ↦ absurd (ground (arith, eq, h))
        | inl (claims, eq) ↦ elim (Result-cases (live_claims o claims)) [
          | inr (e, dead) ↦ absurd (ground (arith, eq, dead, h))
          | inl (subject, live) ↦
              let l = live_claims_lem claims subject live in
              by_token schema token claims subject shown bearer plain eq (ground (arith, eq, h)) l.0
                l.1 l.2 l.3 (ground (arith, eq, live, h))
        ]
      ]

  password_lem :
      (username password : Text) (user : User)
      → validate_credentials o username password ≡ ok user
      → (o.user_by_username username ≡ ok user)
        × ((is_service_account user || is_oidc user) ≡ false)
        × (o.password_matches user.password_hash password ≡ true)
  unfolding validate_credentials is_service_account is_oidc
  password_lem username password user h = (ground (arith, h), ground (arith, h), ground (arith, h))

  basic-Proven :
      (schema encoded : Text)
      → Presents r schema encoded
      → text_eq (to_lower schema) (codes "basic") ≡ true
      → Answers (λ user. Proven o r user no_key) (validate_basic_auth o encoded)
  unfolding validate_basic_auth
  basic-Proven schema encoded shown basic = Answers-self _ λ user h.
      elim (Option-cases (o.decode_base64 encoded)) [
        | inl e ↦ absurd (ground (arith, e, h))
        | inr (s, decoded) ↦ elim (Option-cases (cut b':' s)) [
          | inl e ↦ absurd (ground (arith, decoded, e, h))
          | inr (p, found) ↦
              let split = cut_split b':' s p found in
              let checked : validate_credentials o p.0 p.1 ≡ ok user =
                ground (arith, decoded, found, h) in
              credentials-Proven p.0 p.1 user (decoded ∙ ap some split.0) split.1 checked
        ]
      ]
    where
      credentials-Proven :
          (username password : Text) (user : User)
          → o.decode_base64 encoded ≡ some (username ++ b':' ∷ password)
          → elem b':' username ≡ false
          → validate_credentials o username password ≡ ok user
          → Proven o r user no_key
      credentials-Proven username password user decoded plain h =
          let f = password_lem username password user h in
          by_password schema encoded username password shown basic decoded plain f.0 f.1 f.2

  without_key-Proven :
      (a : Result User)
      → Answers (λ user. Proven o r user no_key) a
      → Answers (λ (a : User × ApiKey). Proven o r a.0 a.1) (without_key a)
  without_key-Proven _ (answer p) = answer p
  without_key-Proven _ refusal = refusal

  either :
      {Q : User × ApiKey → Type 0} (b : Bool) (s t : Result (User × ApiKey))
      → (b ≡ true → Answers Q s)
      → (b ≡ false → Answers Q t)
      → Answers Q (if b then s else t)
  either true s t p q = p refl
  either false s t p q = q refl

  request-Proven :
      (schema value : Text)
      → Presents r schema value
      → Answers (λ (a : User × ApiKey). Proven o r a.0 a.1) (authenticate_request o schema value)
  unfolding authenticate_request
  request-Proven schema value shown =
      either (text_eq (to_lower schema) (codes "bearer")) _ _
        (λ bearer.
          either (has_prefix value (codes "srv_")) _ _
            (λ srv.
              Answers-self (validate_api_key o value)
                λ a h. api_key-Proven schema value a.0 a.1 shown bearer srv h)
            λ plain. without_key-Proven _ (jwt-Proven schema value shown bearer plain))
        λ other.
          either (text_eq (to_lower schema) (codes "basic")) _ _
            (λ basic. without_key-Proven _ (basic-Proven schema value shown basic)) λ e. refusal

  -- What the context of an authenticated request says.
  pub record Identified (user : User) (holder : Holder) : Type 0 where
    pub key : ApiKey
    pub proven : Proven o r user key
    pub cached : holder ≡ cache_user_permissions user key (is_some_time key.created_at)

  -- AuthMiddleware hands a request on only for a user that the credentials of this very request
  -- prove: its bearer token is "srv_" and the secret of an unexpired API key of that user, or is a
  -- signed token that has not run out and names the user, or its Basic credentials decode to the
  -- user's name, a colon and the user's password, which is not for a service account or an OIDC
  -- account; the rights are those of that user and key.
  pub auth_middleware-Identified :
      (user : User) (holder : Holder)
      → auth_middleware o r ≡ ok (user, holder)
      → Identified user holder
  unfolding auth_middleware
  auth_middleware-Identified user holder h = elim (Result-cases (extract_auth_credentials r)) [
    | inr (e, eq) ↦ absurd (ground (arith, eq, h))
    | inl (c, eq) ↦ elim (Result-cases (authenticate_request o c.0 c.1)) [
      | inr (e, eq2) ↦ absurd (ground (arith, eq, eq2, h))
      | inl (a, eq2) ↦ record {
        key = a.1;
        proven =
            subst (λ u. Proven o r u a.1) (ground (arith, eq, eq2, h))
              (Answers-ok _ a (request-Proven c.0 c.1 (extract_auth_credentials-Presents r c eq))
                eq2);
        cached = ground (arith, eq, eq2, h);
      }
    ]
  ]
