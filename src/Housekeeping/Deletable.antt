-- ===== src/Housekeeping/Deletable.antt =====
-- The rows that a sweep chooses: rows of the table that are ready or erroneous.
use media_hub_oss.Prelude.{
  ℕ, ◌<◌, ◌≡◌, refl, arith, Bool, true, false, Option, none, some, List, [], ◌∷◌, ◌==◌,
  if◌then◌else◌, elem, map, filter, All, All-filter, inl, inr, Bool-cases, ==_iff,
}
use media_hub_oss.Repository.Types.{Row}
use media_hub_oss.Repository.Table.{find_row}
use media_hub_oss.Repository.Table.Order.{Above}
use media_hub_oss.Housekeeping.{deletable_row, filter_deletable_entries, row_id, just_enough}

-- The table finds a row under its key.
abbrev pub Known : List Row → Row → Type 0
Known rows r = find_row r.id rows ≡ some r

abbrev pub Chosen : List Row → Row → Type 0
Chosen rows r = Known rows r × (deletable_row r ≡ true)

module _ {κ μ} (P : Row → Type κ) (Q : Row → Type μ) where
  All-map : ((r : Row) → P r → Q r) → (rs : List Row) → All P rs → All Q rs
  All-map f [] h = tt
  All-map f (r ∷ rs) h = (f r h.0, All-map f rs h.1)

-- A row's key is above those of the rows before it.
Known-skip : (r q : Row) (rs : List Row) → r.id < q.id → Known rs q → Known (r ∷ rs) q
unfolding find_row
Known-skip r q rs h k = ground (arith, h, k)

Known-here : (r : Row) (rs : List Row) → Known (r ∷ rs) r
unfolding find_row
Known-here r rs = ground arith

Above-Known : (m : ℕ) (rs : List Row) → Above m rs → All (λ r. (m < r.id) × Known rs r) rs
Above-Known m [] a = tt
Above-Known m (r ∷ rs) a = (
  (a.0, Known-here r rs),
  All-map (λ q. (r.id < q.id) × Known rs q) (λ q. (m < q.id) × Known (r ∷ rs) q)
      (λ q k. (omega (arith, a.0, k.0), Known-skip r q rs k.0 k.1)) rs (Above-Known r.id rs a.1),
)

pub rows-Known : (rs : List Row) → Above 0 rs → All (Known rs) rs
rows-Known rs a =
    All-map (λ q. (0 < q.id) × Known rs q) (Known rs) (λ q k. k.1) rs (Above-Known 0 rs a)

filter-All : (p : Row → Bool) (rs : List Row) → All (λ r. p r ≡ true) (filter p rs)
filter-All p [] = tt
filter-All p (r ∷ rs) = ground (arith, filter-All p rs)

All-both : (P Q : Row → Type 0) (rs : List Row) → All P rs → All Q rs → All (λ r. P r × Q r) rs
All-both P Q [] h k = tt
All-both P Q (r ∷ rs) h k = ((h.0, k.0), All-both P Q rs h.1 k.1)

pub filter_deletable-Chosen :
    (rows rs : List Row) → All (Known rows) rs → All (Chosen rows) (filter_deletable_entries rs)
unfolding filter_deletable_entries
filter_deletable-Chosen rows rs h =
    All-both (Known rows) (λ r. deletable_row r ≡ true) (filter deletable_row rs)
      (All-filter (Known rows) deletable_row rs h) (filter-All deletable_row rs)

All-unless : (P : Row → Type 0) (b : Bool) (rs : List Row) → All P rs → All P (if b then [] else rs)
All-unless P true rs h = tt
All-unless P false rs h = h

pub just_enough-All :
    (P : Row → Type 0) (current limit : ℕ) (rs : List Row) (target : ℕ)
    → All P rs
    → All P (just_enough current limit target rs)
unfolding just_enough
just_enough-All P current limit [] target h = tt
just_enough-All P current limit (r ∷ rs) target h =
    (h.0, All-unless P _ _ (just_enough-All P current limit rs _ h.1))

abbrev pub is_deletable : Option Row → Bool
is_deletable none = false
is_deletable (some r) = deletable_row r

-- A row of the table that is not deletable is not among the chosen.
pub in_flight_unchosen :
    (rows rs : List Row) (i : ℕ)
    → is_deletable (find_row i rows) ≡ false
    → All (Chosen rows) rs
    → elem i (map row_id rs) ≡ false
in_flight_unchosen rows [] i h c = refl
in_flight_unchosen rows (r ∷ rs) i h c = elim (Bool-cases (i == r.id)) [
  | inr e ↦ ground (arith, e, in_flight_unchosen rows rs i h c.1)
  | inl e ↦ ground (arith, known e, h)
]
  where
    known : (i == r.id) ≡ true → is_deletable (find_row i rows) ≡ true
    known e = cc ((==_iff i r.id).0 e, c.0.0, c.0.1)
