-- ===== src/Processing/Pipeline/Posts.antt =====
-- Postconditions of steps: one property of the vault for a result, one for an error.
use media_hub_oss.Prelude.{
  ◌≡◌, refl, Bool, true, false, Option, none, some, Result, ok, err, Error, if◌then◌else◌,
}
use media_hub_oss.Prelude.Answers.{Answers, answer, refusal}
use media_hub_oss.Repository.Types.{Store}
use media_hub_oss.Deletion.{Vault}
use media_hub_oss.Processing.Pipeline.{M, follow, after_error, fail_if, given, put_store}

pub data Post {A : Type 0} (E : Vault → Type 0) (R : A → Vault → Type 0)
    : Result A × Vault → Type 0 where
  returned : {a : A} {v : Vault} → R a v → Post E R (ok a, v)
  raised : {e : Error} {v : Vault} → E v → Post E R (err e, v)

module _ {E : Vault → Type 0} where
  pub Post-follow :
      {A B : Type 0} {R : A → Vault → Type 0} {Q : B → Vault → Type 0} (m : Result A × Vault)
      (next : A → M B)
      → Post E R m
      → ((a : A) (v : Vault) → R a v → Post E Q (next a v))
      → Post E Q (follow m next)
  Post-follow _ next (returned r) k = k _ _ r
  Post-follow _ next (raised e) k = raised e

  pub Post-after_error :
      {A : Type 0} {D : Vault → Type 0} {R : A → Vault → Type 0} (m : Result A × Vault)
      (handler : Error → M (Unit {0}))
      → Post D R m
      → ((e : Error) (v : Vault) → D v → E (handler e v).1)
      → Post E R (after_error m handler)
  Post-after_error _ handler (returned r) k = returned r
  Post-after_error _ handler (raised d) k = raised (k _ _ d)

  pub Post-fail_if :
      (b : Bool) (e : Error) (v : Vault) {R : Unit {0} → Vault → Type 0}
      → E v
      → (b ≡ false → R tt v)
      → Post E R (fail_if b e v)
  Post-fail_if true e v h k = raised h
  Post-fail_if false e v h k = returned (k refl)

  pub Post-guard :
      {A : Type 0} (b : Bool) (e : Error) (v : Vault) (next : Unit {0} → M A)
      {R : A → Vault → Type 0}
      → E v
      → Post E R (next tt v)
      → Post E R (follow (fail_if b e v) next)
  Post-guard true e v next h p = raised h
  Post-guard false e v next h p = p

  pub Post-given :
      {A : Type 0} (o : Option A) (e : Error) (v : Vault) {R : A → Vault → Type 0}
      → E v
      → ((a : A) → R a v)
      → Post E R (given o e v)
  Post-given none e v h k = raised h
  Post-given (some a) e v h k = returned (k a)

  pub Post-store :
      {A : Type 0} {R : A → Vault → Type 0} (v : Vault) {Q : A × Store → Type 0}
      (r : Result (A × Store))
      → Answers Q r
      → E v
      → ((a : A) (s : Store) → Q (a, s) → R a (record v { store = s }))
      → Post E R (put_store v r)
  Post-store v _ (answer q) h k = returned (k _ _ q)
  Post-store v _ refusal h k = raised h

  pub Post-if :
      {A : Type 0} {R : A → Vault → Type 0} (b : Bool) (m n : M A) (v : Vault)
      → (b ≡ true → Post E R (m v))
      → (b ≡ false → Post E R (n v))
      → Post E R ((if b then m else n) v)
  Post-if true m n v h k = h refl
  Post-if false m n v h k = k refl

pub Post-weaken :
    {A : Type 0} {D E : Vault → Type 0} {R : A → Vault → Type 0} (m : Result A × Vault)
    → Post D R m
    → ((v : Vault) → D v → E v)
    → Post E R m
Post-weaken _ (returned r) k = returned r
Post-weaken _ (raised d) k = raised (k _ d)
