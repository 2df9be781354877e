-- ===== src/Repository/Table/Rows.antt =====
-- What a lookup finds after a statement on several keys.
use media_hub_oss.Prelude.{
  ℕ, ◌≡◌, arith, Option, none, some, List, [], ◌∷◌, ◌==◌, if◌then◌else◌, elem,
}
use media_hub_oss.Repository.Types.{EntryStatus, Row}
use media_hub_oss.Repository.Table.{
  find_row, set_statuses, delete_row, keep_rows, update_row, insert_row,
}

abbrev pub with_status : EntryStatus → ℕ → Option Row → Option Row
with_status st now none = none
with_status st now (some r) = some (record r { status = st; updated_at = now })

pub find_row-set_statuses :
    (ids : List ℕ) (st : EntryStatus) (now i : ℕ) (rows : List Row)
    → find_row i (set_statuses ids st now rows)
      ≡ (if elem i ids then with_status st now (find_row i rows) else find_row i rows)
unfolding find_row set_statuses
find_row-set_statuses ids st now i [] = ground arith
find_row-set_statuses ids st now i (r ∷ rows) =
    ground (arith, find_row-set_statuses ids st now i rows)

pub find_row-keep :
    (ids : List ℕ) (i : ℕ) (rows : List Row)
    → find_row i (keep_rows ids rows) ≡ (if elem i ids then none else find_row i rows)
unfolding find_row keep_rows
find_row-keep ids i [] = ground arith
find_row-keep ids i (r ∷ rows) = ground (arith, find_row-keep ids i rows)

pub find_row-delete :
    (id i : ℕ) (rows : List Row)
    → find_row i (delete_row id rows) ≡ (if id == i then none else find_row i rows)
unfolding find_row delete_row
find_row-delete id i [] = ground arith
find_row-delete id i (r ∷ rows) = ground (arith, find_row-delete id i rows)

abbrev pub map_row : (Row → Row) → Option Row → Option Row
map_row f none = none
map_row f (some r) = some (f r)

pub find_row-update :
    (id j : ℕ) (f : Row → Row) (rows : List Row)
    → ((r : Row) → (f r).id ≡ r.id)
    → find_row j (update_row id f rows)
      ≡ (if id == j then map_row f (find_row j rows) else find_row j rows)
unfolding find_row update_row
find_row-update id j f [] same = ground arith
find_row-update id j f (r ∷ rows) same = ground (arith, same r, find_row-update id j f rows same)

pub find_row-insert :
    (n : Row) (j : ℕ) (rows : List Row)
    → find_row n.id rows ≡ none
    → find_row j (insert_row n rows) ≡ (if n.id == j then some n else find_row j rows)
unfolding find_row insert_row
find_row-insert n j [] h = ground arith
find_row-insert n j (r ∷ rows) h = ground (arith, h, find_row-insert n j rows)
