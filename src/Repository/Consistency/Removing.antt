-- ===== src/Repository/Consistency/Removing.antt =====
-- Deleting one entry and several.
use media_hub_oss.Prelude.{ℕ, ◌≡◌, arith, List, [], ◌∷◌, some, sum_by}
use media_hub_oss.Prelude.Text.{Text}
use media_hub_oss.Repository.Types.{queued, Row, Store, Env}
use media_hub_oss.Repository.Table.{find_row, row_bytes, one, is_status, returned_rows}
use media_hub_oss.Repository.Table.Order.{
  delete_row-Above, delete_row-AtMost, keep_rows-Above, keep_rows-AtMost,
}
use media_hub_oss.Repository.Table.Sums.{sum_by-delete, sum_by-keep, length-one}
use media_hub_oss.Repository.Entries.{without, without_all, delete_entry, delete_entries}
use media_hub_oss.Repository.Consistency.{IsConsistent, Leaves, leaves}

pub without-IsConsistent :
    (id : ℕ) (old : Row) (s : Store)
    → IsConsistent s
    → find_row id s.rows ≡ some old
    → IsConsistent (without id old s)
unfolding without
without-IsConsistent id old s v e = record {
  ordered = delete_row-Above id 0 s.rows v.ordered;
  bounded = delete_row-AtMost id s.last_id s.rows v.bounded;
  counted = omega (arith, v.counted, sum_by-delete one id 0 s.rows old v.ordered e);
  measured = measured;
  queue_counted =
      ground (arith, v.queue_counted, sum_by-delete (is_status queued) id 0 s.rows old v.ordered e);
  fits = omega (arith, v.fits);
}
  where
    measured :
        (without id old s).stats.total_disk_space_bytes ≡ sum_by row_bytes (without id old s).rows
    measured =
        omega (arith, v.measured, v.fits, sum_by-delete row_bytes id 0 s.rows old v.ordered e)

-- A successful DeleteEntry keeps the statistics of the database equal to the contents of its entry
-- table.
pub delete_entry-IsConsistent :
    (env : Env) (db_id : Text) (id : ℕ) (s : Store)
    → IsConsistent s
    → Leaves IsConsistent (delete_entry env db_id id s)
unfolding delete_entry
delete_entry-IsConsistent env db_id id s v =
    search (leaves, without-IsConsistent id) depth 16 fits 100000

pub without_all-IsConsistent :
    (ids : List ℕ) (s : Store) → IsConsistent s → IsConsistent (without_all ids s)
unfolding without_all
without_all-IsConsistent ids s v = record {
  ordered = keep_rows-Above ids 0 s.rows v.ordered;
  bounded = keep_rows-AtMost ids s.last_id s.rows v.bounded;
  counted =
      omega (arith, v.counted, sum_by-keep one ids s.rows, length-one (returned_rows ids s.rows));
  measured = omega (arith, v.measured, v.fits, sum_by-keep row_bytes ids s.rows);
  queue_counted = omega (arith, v.queue_counted, sum_by-keep (is_status queued) ids s.rows);
  fits = omega (arith, v.fits);
}

-- A successful DeleteEntries, for any list of keys, keeps the statistics of the database equal to
-- the contents of its entry table.
pub delete_entries-IsConsistent :
    (env : Env) (db_id : Text) (ids : List ℕ) (s : Store)
    → IsConsistent s
    → Leaves IsConsistent (delete_entries env db_id ids s)
unfolding delete_entries
delete_entries-IsConsistent env db_id [] s v = search leaves depth 16 fits 100000
delete_entries-IsConsistent env db_id (i ∷ is) s v =
    search (leaves, without_all-IsConsistent (i ∷ is) s v) depth 16 fits 100000
