-- ===== src/Prelude/Answers.antt =====
-- The result of a fallible function, if there is one, has a property.
use mathlib.Core.Path.{◌≡◌, refl, subst}
use mathlib.Core.Bool.{Bool, true, false}
use mathlib.Core.Option.{Option, none, some}
use media_hub_oss.Prelude.Tests.{Result, ok, err, Error, ◌>>=◌, ◌>>◌, require, or_error}

pub data Answers {κ} {A : Type 0} (Q : A → Type κ) : Result A → Type κ where
  answer : {a : A} → Q a → Answers Q (ok a)
  refusal : {e : Error} → Answers Q (err e)

module _ {κ} {B : Type 0} {Q : B → Type κ} where
  pub Answers-bind :
      {A : Type 0} (m : Result A) (k : A → Result B)
      → ((a : A) → Answers Q (k a))
      → Answers Q (m >>= k)
  Answers-bind (ok a) k h = h a
  Answers-bind (err e) k h = refusal

  pub Answers-require :
      (b : Bool) (e : Error) (r : Result B)
      → (b ≡ true → Answers Q r)
      → Answers Q (require b e >> r)
  Answers-require true e r h = h refl
  Answers-require false e r h = refusal

  pub Answers-or_error :
      {A : Type 0} (o : Option A) (e : Error) (k : A → Result B)
      → ((a : A) → o ≡ some a → Answers Q (k a))
      → Answers Q (or_error o e >>= k)
  Answers-or_error none e k h = refusal
  Answers-or_error (some a) e k h = h a refl

pub ruleset answers = (answer, refusal, Answers-require, Answers-or_error, Answers-bind)

pub Answers-ok {κ} :
    {A : Type 0} {Q : A → Type κ} (r : Result A) (a : A) → Answers Q r → r ≡ ok a → Q a
Answers-ok {Q = Q} _ a (answer q) e = subst Q (cc e) q
Answers-ok _ a refusal e = cc e

-- With what the function is known to have returned.
pub Answers-self {κ} :
    {A : Type 0} {Q : A → Type κ} (r : Result A) → ((a : A) → r ≡ ok a → Q a) → Answers Q r
Answers-self (ok a) h = answer (h a refl)
Answers-self (err e) h = refusal
