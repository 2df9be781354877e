-- ===== src/Repository/Table.antt =====
-- The SQL statements that the repository sends, as functions of the rows of an entry table.
pub mod Sums
pub mod Order
pub mod Rows
use media_hub_oss.Prelude.{
  ℕ, ◌+◌, ◌-◌, ◌*◌, ◌%◌, ◌^◌, Bool, false, not, ◌&&◌, Option, none, some, List, [], ◌∷◌, ltb, ◌==◌,
  if◌then◌else◌, elem, sum_by, filter, take,
}
use media_hub_oss.Prelude.Text.{Text, text_eq}
use media_hub_oss.Repository.Types.{
  EntryStatus, queued, status_eq, Row, Value, Column, plain, latitude, longitude,
}

-- SELECT … WHERE id = ?
unfoldable pub find_row : ℕ → List Row → Option Row
find_row id [] = none
find_row id (r ∷ rs) = if r.id == id then some r else find_row id rs

-- INSERT: the row takes the place of its key.
unfoldable pub insert_row : Row → List Row → List Row
insert_row n [] = n ∷ []
insert_row n (r ∷ rs) = if ltb n.id r.id then n ∷ r ∷ rs else r ∷ insert_row n rs

-- UPDATE … WHERE id = ?
unfoldable pub update_row : ℕ → (Row → Row) → List Row → List Row
update_row id f [] = []
update_row id f (r ∷ rs) = (if r.id == id then f r else r) ∷ update_row id f rs

-- UPDATE … SET status, updated_at WHERE id IN (…)
unfoldable pub set_statuses : List ℕ → EntryStatus → ℕ → List Row → List Row
set_statuses ids status now [] = []
set_statuses ids status now (r ∷ rs) =
    (if elem r.id ids then record r { status = status; updated_at = now } else r)
    ∷ set_statuses ids status now rs

-- DELETE … WHERE id = ?
unfoldable pub delete_row : ℕ → List Row → List Row
delete_row id [] = []
delete_row id (r ∷ rs) = if r.id == id then delete_row id rs else r ∷ delete_row id rs

-- DELETE … WHERE id IN (…), and the rows that it returns.
unfoldable pub keep_rows : List ℕ → List Row → List Row
keep_rows ids = filter λ r. not (elem r.id ids)

unfoldable pub returned_rows : List ℕ → List Row → List Row
returned_rows ids = filter λ r. elem r.id ids

-- SELECT * … WHERE status = ? ORDER BY id ASC [LIMIT ?]
unfoldable pub select_status : EntryStatus → ℕ → List Row → List Row
select_status status limit rows =
    let found = filter (λ (r : Row). status_eq r.status status) rows in
    if ltb 0 limit then take limit found else found

abbrev pub row_bytes : Row → ℕ
row_bytes r = r.filesize + r.preview_filesize

abbrev pub one : Row → ℕ
one r = 1

abbrev pub is_status : EntryStatus → Row → ℕ
is_status s r = if status_eq r.status s then 1 else 0

-- Rows that an `id IN (…)` statement touches, and those of them that are queued.
abbrev pub among : List ℕ → Row → ℕ
among ids r = if elem r.id ids then 1 else 0

abbrev pub queued_among : List ℕ → Row → ℕ
queued_among ids r = if elem r.id ids && status_eq r.status queued then 1 else 0

-- COUNT(*), the bytes of all rows, and COUNT(*) … WHERE status = ?
abbrev pub row_count : List Row → ℕ
row_count = sum_by one

abbrev pub total_bytes : List Row → ℕ
total_bytes = sum_by row_bytes

abbrev pub count_status : EntryStatus → List Row → ℕ
count_status s = sum_by (is_status s)

-- Writes of named columns over those of a row.
pub merge_field {ℓ} : {V : Type ℓ} → Text → V → List (Text × V) → List (Text × V)
merge_field k v [] = (k, v) ∷ []
merge_field k v ((j, w) ∷ m) = if text_eq j k then (k, v) ∷ m else (j, w) ∷ merge_field k v m

unfoldable pub merge_fields : List (Text × Value) → List (Text × Value) → List (Text × Value)
unfolding merge_field
merge_fields [] m = m
merge_fields ((k, v) ∷ fs) m = merge_fields fs (merge_field k v m)

abbrev column_eq : Column → Column → Bool
column_eq (plain i) (plain j) = i == j
column_eq (latitude i) (latitude j) = i == j
column_eq (longitude i) (longitude j) = i == j
column_eq _ _ = false

pub merge_column : Column → Value → List (Column × Value) → List (Column × Value)
merge_column k v [] = (k, v) ∷ []
merge_column k v ((j, w) ∷ m) = if column_eq j k then (k, v) ∷ m else (j, w) ∷ merge_column k v m

unfoldable pub merge_columns : List (Column × Value) → List (Column × Value) → List (Column × Value)
unfolding merge_column
merge_columns [] m = m
merge_columns ((k, v) ∷ fs) m = merge_columns fs (merge_column k v m)

abbrev pub two64 : ℕ
two64 = 2 ^ 64

abbrev pub two63 : ℕ
two63 = 2 ^ 63

-- `(int64(a) + int64(b)) - (int64(c) + int64(d))` as the bit pattern of an int64.
unfoldable pub size_delta : ℕ → ℕ → ℕ → ℕ → ℕ
size_delta a b c d = (a + b + 2 * two64 - c - d) % two64

-- `MAX(0, total + delta)` for an int64 delta given by its bit pattern.
unfoldable pub apply_delta : ℕ → ℕ → ℕ
apply_delta total delta = if ltb delta two63 then total + delta else total - (two64 - delta)
