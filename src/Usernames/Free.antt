-- ===== src/Usernames/Free.antt =====
-- The search for a free user name ends, and what it finds.
use mathlib.Core.Path.{subst}
use native.Mathlib.Decide.{dec_le}
use media_hub_oss.Prelude.{
  ℕ, zero, suc, ◌+◌, ◌≤◌, ◌<◌, ◌≡◌, refl, arith, true, false, if◌then◌else◌, Option, some, List, [],
  ◌∷◌, ◌++◌, length, Bool-cases, ◌⊎◌, inl, inr,
}
use media_hub_oss.Prelude.Text.{Text, text_eq, text_eq→≡, text_eq_refl, one_of}
use media_hub_oss.Prelude.Decimal.{decimal, decimal-injective}
use media_hub_oss.Usernames.{candidate, search_from, resolve_unique_username}

append-injective : (base s t : Text) → base ++ s ≡ base ++ t → s ≡ t
append-injective [] s t h = h
append-injective (c ∷ base) s t h = append-injective base s t (cc h)

candidate-injective : (base : Text) (i j : ℕ) → candidate base i ≡ candidate base j → i ≡ j
unfolding candidate
candidate-injective base i j h =
    decimal-injective i j (cc (append-injective base (b'_' ∷ decimal i) (b'_' ∷ decimal j) h))

-- The list without the first occurrence of a name.
remove : Text → List Text → List Text
remove s [] = []
remove s (t ∷ ts) = let rest = remove s ts in if text_eq s t then ts else t ∷ rest

length-remove :
    (s : Text) (ts : List Text) → one_of s ts ≡ true → suc (length (remove s ts)) ≡ length ts
unfolding remove
length-remove s [] h = cc h
length-remove s (t ∷ ts) h = ground (arith, h, length-remove s ts)

one_of-remove :
    (s r : Text) (ts : List Text)
    → text_eq r s ≡ false
    → one_of s ts ≡ true
    → one_of s (remove r ts) ≡ true
unfolding remove
one_of-remove s r [] d h = h
one_of-remove s r (t ∷ ts) d h = elim (Bool-cases (text_eq r t)) [
  | inr e ↦ ground (arith, e, h, one_of-remove s r ts d)
  | inl e ↦ elim (Bool-cases (text_eq s t)) [
    | inl f ↦ cc (text_eq→≡ r t e, text_eq→≡ s t f, text_eq_refl t, d)
    | inr f ↦ ground (arith, e, f, h)
  ]
]

-- Different names that are all in a list are at most as many as it is long.
pigeonhole :
    (base : Text) (n i : ℕ) (existing : List Text)
    → ((j : ℕ) → i ≤ j → j < i + n → one_of (candidate base j) existing ≡ true)
    → n ≤ length existing
pigeonhole base zero i existing h = omega arith
pigeonhole base (suc n) i existing h =
    let here = h i (omega arith) (omega arith) in
    let others = pigeonhole base n (suc i) (remove (candidate base i) existing) λ j p q.
      one_of-remove (candidate base j) (candidate base i) existing (differs i j (omega arith))
        (h j (omega arith) (omega arith)) in
    omega (arith, length-remove (candidate base i) existing here, others)
  where
    differs : (i j : ℕ) → i < j → text_eq (candidate base i) (candidate base j) ≡ false
    differs i j p = elim (Bool-cases (text_eq (candidate base i) (candidate base j))) [
      | inr e ↦ e
      | inl e ↦ absurd (
          omega (
            arith,
            candidate-injective base i j (text_eq→≡ (candidate base i) (candidate base j) e),
          ))
    ]

-- A number from `i` on whose name is free, and the first such one.
pub record Found (base : Text) (i : ℕ) (existing : List Text) (result : Option Text) : Type 0 where
  pub number : ℕ
  pub from : i ≤ number
  pub is_result : result ≡ some (candidate base number)
  pub is_free : one_of (candidate base number) existing ≡ false
  pub first : (j : ℕ) → i ≤ j → j < number → one_of (candidate base j) existing ≡ true

module _ (base : Text) (existing : List Text) where
  abbrev AllTaken : ℕ → ℕ → Type 0
  AllTaken fuel i = (j : ℕ) → i ≤ j → j < i + fuel → one_of (candidate base j) existing ≡ true

  taken_from :
      (P : ℕ → Type 0) (i n : ℕ)
      → P i
      → ((j : ℕ) → suc i ≤ j → j < n → P j)
      → (j : ℕ) → i ≤ j
      → j < n
      → P j
  taken_from P i n here later j p q = elim (dec_le (suc i) j) [
    | yes h ↦ later j h q
    | no h ↦ subst P (omega arith) here
  ]

  search_from-cases :
      (fuel i : ℕ) → AllTaken fuel i ⊎ Found base i existing (search_from fuel base i existing)
  unfolding search_from
  search_from-cases zero i = inl (λ j p q. absurd (omega arith))
  search_from-cases (suc fuel) i = elim (Bool-cases (one_of (candidate base i) existing)) [
    | inr free ↦ inr (record {
      number = i;
      from = omega arith;
      is_result = rw free refl;
      is_free = free;
      first = λ j p q. absurd (omega arith);
    })
    | inl taken ↦ elim (search_from-cases fuel (suc i)) [
      | inl all ↦ inl (
          taken_from (λ j. one_of (candidate base j) existing ≡ true) i (i + suc fuel) taken
            λ j p q. all j p (omega arith))
      | inr f ↦ inr (record {
        number = f.number;
        from = omega (arith, f.from);
        is_result = rw taken f.is_result;
        is_free = f.is_free;
        first =
            taken_from (λ j. one_of (candidate base j) existing ≡ true) i f.number taken f.first;
      })
    ]
  ]

  -- The base itself where it is free, or the free name with the lowest number from 2 on.
  pub data IsResolved : Option Text → Type 0 where
    kept : one_of base existing ≡ false → IsResolved (some base)
    numbered :
        {result : Option Text}
        → one_of base existing ≡ true
        → Found base 2 existing result
        → IsResolved result

  -- The search for a user name ends after at most one candidate more than there are existing names:
  -- with that fuel it returns the base, if no one has it, and otherwise the base with the lowest
  -- number from 2 on that no one has.
  pub resolve_unique_username-IsResolved :
      (fuel : ℕ) → length existing < fuel → IsResolved (resolve_unique_username fuel base existing)
  unfolding resolve_unique_username
  resolve_unique_username-IsResolved fuel enough = elim (Bool-cases (one_of base existing)) [
    | inr free ↦ rw free (kept free)
    | inl taken ↦ elim (search_from-cases fuel 2) [
      | inl all ↦ absurd (omega (arith, pigeonhole base fuel 2 existing all))
      | inr f ↦ rw taken (numbered taken f)
    ]
  ]
