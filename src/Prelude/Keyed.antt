-- ===== src/Prelude/Keyed.antt =====
-- Rows of a table that a column tells apart: `SELECT`, `UPDATE`, `DELETE` and `COUNT(*)` by a key.
use mathlib.Core.Path.{◌≡◌, refl, sym, ap, ◌∙◌, subst}
use mathlib.Core.Bool.{Bool, true, false, not, ◌||◌, ◌&&◌}
use mathlib.Core.Option.{Option, none, some}
use mathlib.Core.List.{List, [], ◌∷◌, ◌++◌, map}
use mathlib.Core.Logic.{inl, inr}
use Prim.Native.Nat.{ℕ, ◌+◌}
use native.Mathlib.Omega.{arith}
use media_hub_oss.Prelude.Tests.{if◌then◌else◌, Bool-cases}
use media_hub_oss.Prelude.Lists.{filter, All, All-filter, length}
use media_hub_oss.Prelude.Text.{Text, text_eq, text_eq→≡, text_eq_refl}

pub text_eq_sym : (s t : Text) → text_eq s t ≡ text_eq t s
text_eq_sym s t = elim (Bool-cases (text_eq s t)) [
  | inl e ↦ e ∙ sym (ap (λ u. text_eq u s) (sym (text_eq→≡ s t e)) ∙ text_eq_refl s)
  | inr e ↦ elim (Bool-cases (text_eq t s)) [
    | inl b ↦ ap (λ u. text_eq s u) (text_eq→≡ t s b) ∙ text_eq_refl s ∙ sym b
    | inr b ↦ e ∙ sym b
  ]
]

abbrev pub one : Bool → ℕ
one true = 1
one false = 0

-- `SELECT COUNT(*) … WHERE p`
abbrev pub count : {A : Type 0} → (A → Bool) → List A → ℕ
count p xs = length (filter p xs)

module _ {A : Type 0} (key : A → Text) where
  abbrev pub find_by : Text → List A → Option A
  find_by k [] = none
  find_by k (x ∷ xs) = if text_eq (key x) k then some x else find_by k xs

  -- Is there a row with the key `k`?
  abbrev pub has_key : Text → List A → Bool
  has_key k [] = false
  has_key k (x ∷ xs) = text_eq (key x) k || has_key k xs

  -- UPDATE … SET … WHERE key = k
  abbrev pub change : Text → A → List A → List A
  change k b xs = map (λ x. if text_eq (key x) k then b else x) xs

  -- DELETE … WHERE key = k
  abbrev pub without : Text → List A → List A
  without k xs = filter (λ x. not (text_eq (key x) k)) xs

  -- No row has the key `k`, and no two rows have one key.
  abbrev pub Misses : Text → List A → Type 0
  Misses k xs = All (λ x. text_eq (key x) k ≡ false) xs

  abbrev pub Distinct : List A → Type 0
  Distinct [] = Unit {0}
  Distinct (x ∷ xs) = Misses (key x) xs × Distinct xs

  pub has_key-Misses : (k : Text) (xs : List A) → has_key k xs ≡ false → Misses k xs
  has_key-Misses k [] h = tt
  has_key-Misses k (x ∷ xs) h = (ground (arith, h), has_key-Misses k xs (ground (arith, h)))

  pub find_by-Misses : (k : Text) (xs : List A) → Misses k xs → find_by k xs ≡ none
  find_by-Misses k [] h = refl
  find_by-Misses k (x ∷ xs) h = ground (arith, h.0, find_by-Misses k xs h.1)

  pub find_by-key : (k : Text) (xs : List A) (x : A) → find_by k xs ≡ some x → key x ≡ k
  find_by-key k [] x h = cc
  find_by-key k (y ∷ xs) x h = elim (Bool-cases (text_eq (key y) k)) [
    | inl e ↦ cc (ap key (first e), text_eq→≡ (key y) k e)
    | inr e ↦ find_by-key k xs x (ground (arith, h, e))
  ]
    where
      first : text_eq (key y) k ≡ true → y ≡ x
      first e = ground (arith, h, e)

  pub filter-Distinct : (p : A → Bool) (xs : List A) → Distinct xs → Distinct (filter p xs)
  filter-Distinct p [] d = tt
  filter-Distinct p (x ∷ xs) d = elim (Bool-cases (p x)) [
    | inl e ↦ rw e (All-filter _ p xs d.0, filter-Distinct p xs d.1)
    | inr e ↦ rw e (filter-Distinct p xs d.1)
  ]

  Misses-snoc :
      (k : Text) (xs : List A) (b : A)
      → Misses k xs
      → text_eq (key b) k ≡ false
      → Misses k (xs ++ (b ∷ []))
  Misses-snoc k [] b h e = (e, tt)
  Misses-snoc k (x ∷ xs) b h e = (h.0, Misses-snoc k xs b h.1 e)

  pub snoc-Distinct :
      (xs : List A) (b : A) → Distinct xs → Misses (key b) xs → Distinct (xs ++ (b ∷ []))
  snoc-Distinct [] b d h = (tt, tt)
  snoc-Distinct (x ∷ xs) b d h =
      (Misses-snoc (key x) xs b d.0 (text_eq_sym (key b) (key x) ∙ h.0), snoc-Distinct xs b d.1 h.1)

  pub find_by-snoc :
      (k : Text) (xs : List A) (b : A)
      → Misses (key b) xs
      → find_by k (xs ++ (b ∷ [])) ≡ (if text_eq (key b) k then some b else find_by k xs)
  find_by-snoc k [] b h = refl
  find_by-snoc k (x ∷ xs) b h = elim (Bool-cases (text_eq (key b) k)) [
    | inr e ↦ ground (arith, e, find_by-snoc k xs b h.1)
    | inl e ↦
        let other : text_eq (key x) k ≡ false =
          sym (ap (text_eq (key x)) (text_eq→≡ (key b) k e)) ∙ h.0 in
        ground (arith, e, other, find_by-snoc k xs b h.1)
  ]

  pub find_by-without :
      (k : Text) (j : Text) (xs : List A)
      → find_by j (without k xs) ≡ (if text_eq k j then none else find_by j xs)
  find_by-without k j [] = ground arith
  find_by-without k j (x ∷ xs) = elim (Bool-cases (text_eq (key x) k)) [
    | inl e ↦
        ground (arith, e, find_by-without k j xs, ap (λ u. text_eq u j) (text_eq→≡ (key x) k e))
    | inr e ↦ elim (Bool-cases (text_eq k j)) [
      | inl s ↦
          let other : text_eq (key x) j ≡ false =
            sym (ap (text_eq (key x)) (text_eq→≡ k j s)) ∙ e in
          ground (arith, e, s, other, find_by-without k j xs)
      | inr s ↦ ground (arith, e, s, find_by-without k j xs)
    ]
  ]

  -- A row that is replaced by one with the same key.
  change-Misses :
      (k j : Text) (b : A) (xs : List A)
      → Misses j xs
      → text_eq k j ≡ false
      → key b ≡ k
      → Misses j (change k b xs)
  change-Misses k j b [] h e same = tt
  change-Misses k j b (x ∷ xs) h e same =
      (ground (arith, h.0, ap (λ u. text_eq u j) same ∙ e), change-Misses k j b xs h.1 e same)

  change_absent : (k : Text) (b : A) (xs : List A) → Misses k xs → change k b xs ≡ xs
  change_absent k b [] h = refl
  change_absent k b (x ∷ xs) h = rw (h.0, change_absent k b xs h.1) refl

  pub find_by-change :
      (k j : Text) (b : A) (xs : List A)
      → key b ≡ k
      → find_by j (change k b xs) ≡ (
          if text_eq k j
          then (elim (find_by k xs) [ none ↦ none | some a ↦ some b ])
          else find_by j xs)
  find_by-change k j b [] same = ground arith
  find_by-change k j b (x ∷ xs) same =
      let moved : text_eq (key b) j ≡ text_eq k j = ap (λ u. text_eq u j) same in
      elim (Bool-cases (text_eq (key x) k)) [
        | inl e ↦ ground (
          arith,
          e,
          moved,
          find_by-change k j b xs same,
          ap (λ u. text_eq u j) (text_eq→≡ (key x) k e),
        )
        | inr e ↦ elim (Bool-cases (text_eq k j)) [
          | inl s ↦
              let other : text_eq (key x) j ≡ false =
                sym (ap (text_eq (key x)) (text_eq→≡ k j s)) ∙ e in
              ground (arith, e, s, other, find_by-change k j b xs same)
          | inr s ↦ ground (arith, e, s, find_by-change k j b xs same)
        ]
      ]

  pub change-Distinct :
      (k : Text) (b : A) (xs : List A) → Distinct xs → key b ≡ k → Distinct (change k b xs)
  change-Distinct k b [] d same = tt
  change-Distinct k b (x ∷ xs) d same = elim (Bool-cases (text_eq (key x) k)) [
    | inl e ↦
        let here : Misses (key b) xs =
          subst (λ (j : Text). Misses j xs) (text_eq→≡ (key x) k e ∙ sym same) d.0 in
        rw (e, change_absent k b xs (subst (λ (j : Text). Misses j xs) same here)) (here, d.1)
    | inr e ↦ rw e (
      change-Misses k (key x) b xs d.0 (text_eq_sym k (key x) ∙ e) same,
      change-Distinct k b xs d.1 same,
    )
  ]

  pub has_key-change :
      (k : Text) (b : A) (xs : List A) → key b ≡ k → has_key k (change k b xs) ≡ has_key k xs
  has_key-change k b [] same = refl
  has_key-change k b (x ∷ xs) same = elim (Bool-cases (text_eq (key x) k)) [
    | inl e ↦ rw e (ground (arith, ap (λ u. text_eq u k) same, text_eq_refl k))
    | inr e ↦ rw (e, e) (has_key-change k b xs same)
  ]

  pub has_key-found : (k : Text) (x : A) (xs : List A) → find_by k xs ≡ some x → has_key k xs ≡ true
  has_key-found k x [] h = cc
  has_key-found k x (y ∷ xs) h = elim (Bool-cases (text_eq (key y) k)) [
    | inl e ↦ rw e refl
    | inr e ↦ rw e (has_key-found k x xs (ground (arith, h, e)))
  ]

  pub count-snoc :
      (p : A → Bool) (xs : List A) (b : A) → count p (xs ++ (b ∷ [])) ≡ count p xs + one (p b)
  count-snoc p [] b = ground arith
  count-snoc p (x ∷ xs) b = ground (arith, count-snoc p xs b)

  without_absent : (k : Text) (xs : List A) → Misses k xs → without k xs ≡ xs
  without_absent k [] h = refl
  without_absent k (x ∷ xs) h = rw (h.0, without_absent k xs h.1) refl

  pub count-change :
      (p : A → Bool) (k : Text) (b a : A) (xs : List A)
      → Distinct xs
      → find_by k xs ≡ some a
      → count p (change k b xs) + one (p a) ≡ count p xs + one (p b)
  count-change p k b a [] d h = cc
  count-change p k b a (x ∷ xs) d h = elim (Bool-cases (text_eq (key x) k)) [
    | inl e ↦
        let same : x ≡ a = ground (arith, h, e) in
        let rest : change k b xs ≡ xs =
          change_absent k b xs (subst (λ (j : Text). Misses j xs) (text_eq→≡ (key x) k e) d.0) in
        rw (e, rest) (ground (arith, ap p same))
    | inr e ↦ ground (arith, e, count-change p k b a xs d.1 (ground (arith, h, e)))
  ]

  pub count-without :
      (p : A → Bool) (k : Text) (a : A) (xs : List A)
      → Distinct xs
      → find_by k xs ≡ some a
      → count p (without k xs) + one (p a) ≡ count p xs
  count-without p k a [] d h = cc
  count-without p k a (x ∷ xs) d h = elim (Bool-cases (text_eq (key x) k)) [
    | inl e ↦
        let same : x ≡ a = ground (arith, h, e) in
        let rest : without k xs ≡ xs =
          without_absent k xs (subst (λ (j : Text). Misses j xs) (text_eq→≡ (key x) k e) d.0) in
        rw (e, rest) (ground (arith, ap p same))
    | inr e ↦ ground (arith, e, count-without p k a xs d.1 (ground (arith, h, e)))
  ]

-- A second column stays unique when a row is replaced by one whose value no other row has.
module _ {A : Type 0} (key col : A → Text) where
  abbrev pub OthersMiss : Text → Text → List A → Type 0
  OthersMiss k v xs = All (λ x. text_eq (key x) k ≡ false → text_eq (col x) v ≡ false) xs

  abbrev pub taken_by_other : Text → Text → List A → Bool
  taken_by_other k v [] = false
  taken_by_other k v (x ∷ xs) =
      (not (text_eq (key x) k) && text_eq (col x) v) || taken_by_other k v xs

  pub taken_by_other-OthersMiss :
      (k v : Text) (xs : List A) → taken_by_other k v xs ≡ false → OthersMiss k v xs
  taken_by_other-OthersMiss k v [] h = tt
  taken_by_other-OthersMiss k v (x ∷ xs) h =
      (λ e. ground (arith, h, e), taken_by_other-OthersMiss k v xs (ground (arith, h)))

  others-Misses : (k v : Text) (xs : List A) → Misses key k xs → OthersMiss k v xs → Misses col v xs
  others-Misses k v [] m h = tt
  others-Misses k v (x ∷ xs) m h = (h.0 m.0, others-Misses k v xs m.1 h.1)

  change-col-Misses :
      (k v : Text) (b : A) (xs : List A)
      → Misses col v xs
      → text_eq (col b) v ≡ false
      → Misses col v (change key k b xs)
  change-col-Misses k v b [] m e = tt
  change-col-Misses k v b (x ∷ xs) m e = (ground (arith, m.0, e), change-col-Misses k v b xs m.1 e)

  pub change-Distinct_other :
      (k : Text) (b : A) (xs : List A)
      → Distinct key xs
      → Distinct col xs
      → OthersMiss k (col b) xs
      → Distinct col (change key k b xs)
  change-Distinct_other k b [] ids d h = tt
  change-Distinct_other k b (x ∷ xs) ids d h = elim (Bool-cases (text_eq (key x) k)) [
    | inl e ↦
        let absent : Misses key k xs =
          subst (λ (j : Text). Misses key j xs) (text_eq→≡ (key x) k e) ids.0 in
        rw (e, change_absent key k b xs absent) (others-Misses k (col b) xs absent h.1, d.1)
    | inr e ↦ rw e (
      change-col-Misses k (col x) b xs d.0 (text_eq_sym (col b) (col x) ∙ h.0 e),
      change-Distinct_other k b xs ids.1 d.1 h.1,
    )
  ]
