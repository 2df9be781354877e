-- ===== src/Repository/Consistency/Changing.antt =====
-- Rewriting, queueing, claiming and bulk status changes.
use media_hub_oss.Prelude.{
  ℕ, ◌+◌, ◌<◌, ◌≤◌, ◌≡◌, refl, some, arith, List, [], ◌∷◌, Option-cases, inl, inr, sum_by,
}
use media_hub_oss.Prelude.Text.{Text}
use media_hub_oss.Repository.Types.{
  EntryStatus, queued, status_eq, Entry, Row, Store, Env, Column, Value,
}
use media_hub_oss.Repository.Table.{
  find_row, update_row, row_bytes, one, is_status, two63, size_delta, apply_delta, among,
  queued_among, set_statuses,
}
use media_hub_oss.Repository.Table.Order.{
  update_row-Above, update_row-AtMost, set_statuses-Above, set_statuses-AtMost,
}
use media_hub_oss.Repository.Table.Sums.{
  sum_by-update, sum_by-update_same, sum_by-update_missing, weight-le-sum_by,
  set_statuses-row_bytes, set_statuses-one, set_statuses-queued, set_statuses-unqueued,
  queued_among-le,
}
use media_hub_oss.Repository.Entries.{
  rewritten, write_entry, entry_delta, move_total, update_entry, enqueue_entry, restatused,
  bulk_queued, update_entries_status, claim_row, claimed, claim_queued_entry, is_queued_row,
  update_entry_metadata, write_metadata,
}
use media_hub_oss.Repository.Consistency.{IsConsistent, HasRoom, Leaves, leaves}

-- The int64 arithmetic on sizes moves the total by exactly the difference.
pub move_total-delta :
    (a b c d total : ℕ)
    → total + a + b < two63
    → c + d ≤ total
    → move_total (size_delta a b c d) total + (c + d) ≡ total + (a + b)
unfolding size_delta apply_delta
move_total-delta a b c d total room le = ground arith

pub rewritten-IsConsistent :
    (env : Env) (entry : Entry) (old : Row) (s : Store)
    → IsConsistent s
    → HasRoom entry s
    → find_row entry.id s.rows ≡ some old
    → IsConsistent (rewritten env entry old s)
unfolding rewritten entry_delta write_entry
rewritten-IsConsistent env entry old s v room e = record {
  ordered = update_row-Above entry.id (write_entry env entry) (λ r. refl) 0 s.rows v.ordered;
  bounded =
      update_row-AtMost entry.id (write_entry env entry) (λ r. refl) s.last_id s.rows v.bounded;
  counted = omega (arith, v.counted, sum one);
  measured = omega (arith, v.measured, sum row_bytes, moved);
  queue_counted = ground (
    arith,
    v.queue_counted,
    sum (is_status queued),
    weight-le-sum_by (is_status queued) entry.id s.rows old,
  );
  fits = omega (arith, moved, room);
}
  where
    sum :
        (w : Row → ℕ)
        → sum_by w (update_row entry.id (write_entry env entry) s.rows) + w old
          ≡ sum_by w s.rows + w (write_entry env entry old)
    sum w = sum_by-update w entry.id 0 (write_entry env entry) s.rows old v.ordered e

    moved :
        move_total
            (size_delta entry.size entry.preview_size old.filesize old.preview_filesize)
            s.stats.total_disk_space_bytes
          + (old.filesize + old.preview_filesize)
        ≡ s.stats.total_disk_space_bytes + (entry.size + entry.preview_size)
    moved =
        move_total-delta entry.size entry.preview_size old.filesize old.preview_filesize
          s.stats.total_disk_space_bytes room
          (omega (arith, v.measured, weight-le-sum_by row_bytes entry.id s.rows old e))

-- A successful UpdateEntry keeps the statistics of the database equal to the contents of its entry
-- table, while the database with the new sizes stays below 2^63 bytes.
pub update_entry-IsConsistent :
    (env : Env) (db_id : Text) (entry : Entry) (s : Store)
    → IsConsistent s
    → HasRoom entry s
    → Leaves IsConsistent (update_entry env db_id entry s)
unfolding update_entry
update_entry-IsConsistent env db_id entry s v room =
    search (leaves, rewritten-IsConsistent env entry) depth 16 fits 100000

-- A successful UpdateEntryMetadata keeps the statistics and the keys of the database as they are.
pub update_entry_metadata-IsConsistent :
    (env : Env) (db_id : Text) (entry : Entry) (s : Store)
    → IsConsistent s
    → Leaves IsConsistent (update_entry_metadata env db_id entry s)
unfolding update_entry_metadata
update_entry_metadata-IsConsistent env db_id entry s v = search (leaves, keeps) depth 16 fits 100000
  where
    same :
        (custom : List (Column × Value)) (w : Row → ℕ)
        → ((r : Row) → w (write_metadata env entry custom r) ≡ w r)
        → sum_by w (update_row entry.id (write_metadata env entry custom) s.rows) ≡ sum_by w s.rows
    same custom w h = sum_by-update_same w entry.id (write_metadata env entry custom) h s.rows

    keeps :
        (custom : List (Column × Value))
        → IsConsistent
            (record s { rows = update_row entry.id (write_metadata env entry custom) s.rows })
    keeps custom =
        unfold write_metadata in
        record {
          ordered =
              update_row-Above entry.id (write_metadata env entry custom) (λ r. refl) 0 s.rows
                v.ordered;
          bounded =
              update_row-AtMost entry.id (write_metadata env entry custom) (λ r. refl) s.last_id
                s.rows v.bounded;
          counted = omega (arith, v.counted, same custom one (λ r. refl));
          measured = omega (arith, v.measured, same custom row_bytes (λ r. refl));
          queue_counted =
              omega (arith, v.queue_counted, same custom (is_status queued) (λ r. refl));
          fits = v.fits;
        }

-- A successful EnqueueEntry keeps the statistics of the database equal to the contents of its entry
-- table, while the database with the new sizes stays below 2^63 bytes.
pub enqueue_entry-IsConsistent :
    (env : Env) (db_id : Text) (entry : Entry) (max_queued : ℕ) (s : Store)
    → IsConsistent s
    → HasRoom entry s
    → Leaves IsConsistent (enqueue_entry env db_id entry max_queued s)
unfolding enqueue_entry
enqueue_entry-IsConsistent env db_id entry max_queued s v room =
    search (leaves, rewritten-IsConsistent env (record entry { status = queued })) depth 16 fits
      100000

-- The counter moves with the bulk change of status, both into the queue and out of it.
pub restatused-IsConsistent :
    (env : Env) (ids : List ℕ) (status : EntryStatus) (s : Store)
    → IsConsistent s
    → IsConsistent (restatused env ids status s)
unfolding restatused
restatused-IsConsistent env ids status s v = record {
  ordered = set_statuses-Above ids status env.now 0 s.rows v.ordered;
  bounded = set_statuses-AtMost ids status env.now s.last_id s.rows v.bounded;
  counted = omega (arith, v.counted, set_statuses-one ids status env.now s.rows);
  measured = omega (arith, v.measured, set_statuses-row_bytes ids status env.now s.rows);
  queue_counted = counter status;
  fits = v.fits;
}
  where
    counter :
        (t : EntryStatus)
        → bulk_queued
            (status_eq t queued)
            (sum_by (among ids) s.rows)
            (sum_by (queued_among ids) s.rows)
            s.stats.queued_count
          ≡ sum_by (is_status queued) (set_statuses ids t env.now s.rows)
    counter queued = ground (
      arith,
      v.queue_counted,
      queued_among-le ids env.now s.rows,
      set_statuses-queued ids env.now s.rows,
    )
    counter EntryStatus.ready =
        omega
          (arith, v.queue_counted, set_statuses-unqueued ids env.now EntryStatus.ready s.rows refl)
    counter t = omega (arith, v.queue_counted, set_statuses-unqueued ids env.now t s.rows refl)

-- A successful UpdateEntriesStatus, for any list of keys and any status, keeps the statistics of
-- the database equal to the contents of its entry table.
pub update_entries_status-IsConsistent :
    (env : Env) (db_id : Text) (ids : List ℕ) (status : EntryStatus) (s : Store)
    → IsConsistent s
    → Leaves IsConsistent (update_entries_status env db_id ids status s)
unfolding update_entries_status
update_entries_status-IsConsistent env db_id [] status s v = search leaves depth 16 fits 100000
update_entries_status-IsConsistent env db_id (i ∷ is) status s v =
    search (leaves, restatused-IsConsistent env (i ∷ is) status s v) depth 16 fits 100000

claim_row-weight :
    (env : Env) (w : Row → ℕ) (id : ℕ) (s : Store)
    → ((r : Row) → w (claim_row env r) ≡ w r)
    → sum_by w (update_row id (claim_row env) s.rows) ≡ sum_by w s.rows
claim_row-weight env w id s h = sum_by-update_same w id (claim_row env) h s.rows

pub claimed-IsConsistent :
    (env : Env) (id : ℕ) (s : Store)
    → IsConsistent s
    → IsConsistent (claimed env id (is_queued_row (find_row id s.rows)) s)
unfolding claimed claim_row
claimed-IsConsistent env id s v = record {
  ordered = update_row-Above id (claim_row env) (λ r. ground arith) 0 s.rows v.ordered;
  bounded = update_row-AtMost id (claim_row env) (λ r. ground arith) s.last_id s.rows v.bounded;
  counted = omega (arith, v.counted, claim_row-weight env one id s (λ r. refl));
  measured = omega (arith, v.measured, claim_row-weight env row_bytes id s (λ r. ground arith));
  queue_counted = elim (Option-cases (find_row id s.rows)) [
    | inl e ↦ rw e (
        omega (
          arith,
          v.queue_counted,
          sum_by-update_missing (is_status queued) id (claim_row env) s.rows e,
        ))
    | inr (old, e) ↦ rw e (
        ground (
          arith,
          v.queue_counted,
          sum_by-update (is_status queued) id 0 (claim_row env) s.rows old v.ordered e,
          weight-le-sum_by (is_status queued) id s.rows old e,
        ))
  ];
  fits = v.fits;
}

-- A successful ClaimQueuedEntry, won or lost, keeps the statistics of the database equal to the
-- contents of its entry table.
pub claim_queued_entry-IsConsistent :
    (env : Env) (db_id : Text) (id : ℕ) (s : Store)
    → IsConsistent s
    → Leaves IsConsistent (claim_queued_entry env db_id id s)
unfolding claim_queued_entry
claim_queued_entry-IsConsistent env db_id id s v =
    search (leaves, claimed-IsConsistent env id s v) depth 16 fits 100000
