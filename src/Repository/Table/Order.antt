-- ===== src/Repository/Table/Order.antt =====
-- The primary key: rows stand in the strict order of their keys.
use media_hub_oss.Prelude.{ℕ, ◌≤◌, ◌<◌, ◌≡◌, refl, none, List, [], ◌∷◌, arith}
use media_hub_oss.Repository.Types.{EntryStatus, Row}
use media_hub_oss.Repository.Table.{
  find_row, insert_row, update_row, set_statuses, delete_row, keep_rows,
}

abbrev pub Above : ℕ → List Row → Type 0
Above n [] = Unit {0}
Above n (r ∷ rs) = (n < r.id) × Above r.id rs

abbrev pub AtMost : ℕ → List Row → Type 0
AtMost n [] = Unit {0}
AtMost n (r ∷ rs) = (r.id ≤ n) × AtMost n rs

pub Above-mono : (m n : ℕ) (rs : List Row) → m ≤ n → Above n rs → Above m rs
Above-mono m n [] h a = tt
Above-mono m n (r ∷ rs) h a = (omega arith, a.1)

pub AtMost-mono : (m n : ℕ) (rs : List Row) → m ≤ n → AtMost m rs → AtMost n rs
AtMost-mono m n [] h a = tt
AtMost-mono m n (r ∷ rs) h a = (omega arith, AtMost-mono m n rs h a.1)

pub find_row-Above : (id m : ℕ) (rs : List Row) → id ≤ m → Above m rs → find_row id rs ≡ none
unfolding find_row
find_row-Above id m [] h a = refl
find_row-Above id m (r ∷ rs) h a = ground (arith, find_row-Above id r.id rs)

pub find_row_beyond : (id m : ℕ) (rs : List Row) → m < id → AtMost m rs → find_row id rs ≡ none
unfolding find_row
find_row_beyond id m [] h a = refl
find_row_beyond id m (r ∷ rs) h a = ground (arith, find_row_beyond id m rs)

pub update_row-Above' :
    (id m : ℕ) (f : Row → Row) (rs : List Row) → id ≤ m → Above m rs → update_row id f rs ≡ rs
unfolding update_row
update_row-Above' id m f [] h a = refl
update_row-Above' id m f (r ∷ rs) h a = ground (arith, update_row-Above' id r.id f rs)

pub delete_row-Above' : (id m : ℕ) (rs : List Row) → id ≤ m → Above m rs → delete_row id rs ≡ rs
unfolding delete_row
delete_row-Above' id m [] h a = refl
delete_row-Above' id m (r ∷ rs) h a = ground (arith, delete_row-Above' id r.id rs)

pub insert_row-Above :
    (m : ℕ) (n : Row) (rs : List Row)
    → m < n.id
    → find_row n.id rs ≡ none
    → Above m rs
    → Above m (insert_row n rs)
unfolding insert_row find_row
insert_row-Above m n [] h e a = (h, tt)
insert_row-Above m n (r ∷ rs) h e a = ground (arith, insert_row-Above r.id n rs)

pub insert_row-AtMost :
    (m : ℕ) (n : Row) (rs : List Row) → n.id ≤ m → AtMost m rs → AtMost m (insert_row n rs)
unfolding insert_row
insert_row-AtMost m n [] h a = (h, tt)
insert_row-AtMost m n (r ∷ rs) h a = ground (arith, insert_row-AtMost m n rs)

module _ (id : ℕ) (f : Row → Row) (same : (r : Row) → (f r).id ≡ r.id) where
  pub update_row-Above : (m : ℕ) (rs : List Row) → Above m rs → Above m (update_row id f rs)
  unfolding update_row
  update_row-Above m [] a = tt
  update_row-Above m (r ∷ rs) a = ground (arith, same r, update_row-Above r.id rs)

  pub update_row-AtMost : (m : ℕ) (rs : List Row) → AtMost m rs → AtMost m (update_row id f rs)
  unfolding update_row
  update_row-AtMost m [] a = tt
  update_row-AtMost m (r ∷ rs) a = ground (arith, same r, update_row-AtMost m rs)

module _ (ids : List ℕ) (status : EntryStatus) (now : ℕ) where
  pub set_statuses-Above :
      (m : ℕ) (rs : List Row) → Above m rs → Above m (set_statuses ids status now rs)
  unfolding set_statuses
  set_statuses-Above m [] a = tt
  set_statuses-Above m (r ∷ rs) a = ground (arith, set_statuses-Above r.id rs)

  pub set_statuses-AtMost :
      (m : ℕ) (rs : List Row) → AtMost m rs → AtMost m (set_statuses ids status now rs)
  unfolding set_statuses
  set_statuses-AtMost m [] a = tt
  set_statuses-AtMost m (r ∷ rs) a = ground (arith, set_statuses-AtMost m rs)

pub delete_row-Above : (id m : ℕ) (rs : List Row) → Above m rs → Above m (delete_row id rs)
unfolding delete_row
delete_row-Above id m [] a = tt
delete_row-Above id m (r ∷ rs) a =
    ground (arith, delete_row-Above id r.id rs, Above-mono m r.id (delete_row id rs))

pub delete_row-AtMost : (id m : ℕ) (rs : List Row) → AtMost m rs → AtMost m (delete_row id rs)
unfolding delete_row
delete_row-AtMost id m [] a = tt
delete_row-AtMost id m (r ∷ rs) a = ground (arith, delete_row-AtMost id m rs)

pub keep_rows-Above :
    (ids : List ℕ) (m : ℕ) (rs : List Row) → Above m rs → Above m (keep_rows ids rs)
unfolding keep_rows
keep_rows-Above ids m [] a = tt
keep_rows-Above ids m (r ∷ rs) a =
    ground (arith, keep_rows-Above ids r.id rs, Above-mono m r.id (keep_rows ids rs))

pub keep_rows-AtMost :
    (ids : List ℕ) (m : ℕ) (rs : List Row) → AtMost m rs → AtMost m (keep_rows ids rs)
unfolding keep_rows
keep_rows-AtMost ids m [] a = tt
keep_rows-AtMost ids m (r ∷ rs) a = ground (arith, keep_rows-AtMost ids m rs)
