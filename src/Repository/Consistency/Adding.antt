-- ===== src/Repository/Consistency/Adding.antt =====
-- Creating an entry.
use media_hub_oss.Prelude.{◌<◌, ◌≡◌, none, arith, List, max}
use media_hub_oss.Repository.Types.{queued, Entry, Row, Store, Env, Database, Column, Value}
use media_hub_oss.Repository.Table.{find_row, row_bytes, one, is_status}
use media_hub_oss.Repository.Table.Order.{insert_row-Above, insert_row-AtMost, AtMost-mono}
use media_hub_oss.Repository.Table.Sums.{sum_by-insert}
use media_hub_oss.Repository.Entries.{new_row, new_id, created, create_entry, none_of_not-is_some}
use media_hub_oss.Repository.Consistency.{leaves, IsConsistent, HasRoom, Leaves}

pub new_id-pos : (entry : Entry) (s : Store) → 0 < new_id entry s
unfolding new_id
new_id-pos entry s = ground arith

pub created-IsConsistent :
    (env : Env) (entry : Entry) (custom : List (Column × Value)) (s : Store)
    → IsConsistent s
    → HasRoom entry s
    → find_row (new_id entry s) s.rows ≡ none
    → IsConsistent (created env entry custom s)
unfolding created new_row
created-IsConsistent env entry custom s v room fresh = record {
  ordered = insert_row-Above 0 row s.rows (new_id-pos entry s) fresh v.ordered;
  bounded =
      insert_row-AtMost (max s.last_id (new_id entry s)) row s.rows (omega arith)
        (AtMost-mono s.last_id (max s.last_id (new_id entry s)) s.rows (omega arith) v.bounded);
  counted = omega (arith, v.counted, sum_by-insert one row s.rows);
  measured = omega (arith, v.measured, room, sum_by-insert row_bytes row s.rows);
  queue_counted = ground (arith, v.queue_counted, sum_by-insert (is_status queued) row s.rows);
  fits = omega (arith, room);
}
  where
    row : Row
    row = new_row env entry (new_id entry s) custom

-- A successful CreateEntry keeps the statistics of the database equal to the contents of its entry
-- table, and the keys distinct and ordered, while the database stays below 2^63 bytes.
pub create_entry-IsConsistent :
    (env : Env) (db : Database) (entry : Entry) (s : Store)
    → IsConsistent s
    → HasRoom entry s
    → Leaves IsConsistent (create_entry env db entry s)
unfolding create_entry
create_entry-IsConsistent env db entry s v room =
    search (leaves, created-IsConsistent env entry, none_of_not-is_some) depth 16 fits 100000
