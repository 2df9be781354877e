-- ===== src/Repository/Entries.antt =====
-- internal/repository/sqlite/entries.go: the operations on entries, each one transaction.
-- An error leaves the store as it was, since the deferred Rollback undoes what was written.
use media_hub_oss.Prelude.{
  ℕ, ◌+◌, ◌-◌, ◌%◌, Bool, true, false, not, ◌&&◌, ◌||◌, Option, none, some, List, [], ◌∷◌, ◌++◌,
  max, map, ltb, leb, ◌==◌, if◌then◌else◌, sum_by, length, Result, ok, err, Error, ◌>>=◌, ◌>>◌,
  require, call, or_error, ◌≡◌, refl, arith,
}
use media_hub_oss.Prelude.Text.{Text, text_eq}
use media_hub_oss.Media.Mime.{is_mime_of_type}
use media_hub_oss.Repository.Types.{
  EntryStatus, processing, queued, status_eq, is_coordinate, CustomFieldDef, Value, null, Column,
  plain, latitude, longitude, Database, Entry, DeletedEntryMeta, Row, Store, Env,
}
use media_hub_oss.Repository.Table.{
  find_row, insert_row, update_row, set_statuses, delete_row, keep_rows, returned_rows,
  select_status, row_bytes, is_status, count_status, merge_fields, merge_columns, among,
  queued_among, two64, size_delta, apply_delta,
}

find_field : Text → List CustomFieldDef → Option CustomFieldDef
find_field name [] = none
find_field name (f ∷ fs) = elim (find_field name fs) [
  | some g ↦ some g
  | none ↦ if text_eq f.name name then some f else none
]

coordinate_columns : Env → CustomFieldDef → Value → Result (List (Column × Value))
coordinate_columns env cf null = ok ((latitude cf.id, null) ∷ (longitude cf.id, null) ∷ [])
coordinate_columns env cf value = elim (env.parse_coordinate value) [
  | ok (lat, lng) ↦ ok ((latitude cf.id, lat) ∷ (longitude cf.id, lng) ∷ [])
  | err e ↦ err Error.validation
]

-- mapCustomFieldsToSQLiteColumns; a later definition of a name hides an earlier one.
unfoldable pub map_custom_fields :
    Env → List CustomFieldDef → List (Text × Value) → Result (List (Column × Value))
unfolding find_field coordinate_columns
map_custom_fields env defs [] = ok []
map_custom_fields env defs ((key, value) ∷ fields) = do
  cf ← or_error (find_field key defs) Error.validation
  columns ←
      if is_coordinate cf.type
      then coordinate_columns env cf value
      else ok ((plain cf.id, value) ∷ [])
  rest ← map_custom_fields env defs fields
  ok (columns ++ rest)

abbrev or_now : Env → Option ℕ → ℕ
or_now env none = env.now
or_now env (some t) = t

unfoldable pub new_row : Env → Entry → ℕ → List (Column × Value) → Row
new_row env entry id custom = record {
  id = id;
  filesize = entry.size;
  preview_filesize = entry.preview_size;
  filename = entry.file_name;
  timestamp = or_now env entry.timestamp;
  created_at = env.now;
  updated_at = env.now;
  mime_type = entry.mime_type;
  status = entry.status;
  media = merge_fields entry.media_fields [];
  custom = custom;
}

abbrev pub is_some {ℓ} : {A : Type ℓ} → Option A → Bool
is_some none = false
is_some (some a) = true

pub none_of_not-is_some {ℓ} : {A : Type ℓ} (o : Option A) → not (is_some o) ≡ true → o ≡ none
none_of_not-is_some none h = refl
none_of_not-is_some (some a) h = ground arith

-- The key of a new row: the given one, or the next of AUTOINCREMENT.
unfoldable pub new_id : Entry → Store → ℕ
new_id entry s = if entry.id == 0 then s.last_id + 1 else entry.id

-- The store with the row inserted and the statistics moved.
unfoldable pub created : Env → Entry → List (Column × Value) → Store → Store
unfolding new_row new_id
created env entry custom s = record s {
  rows = insert_row (new_row env entry (new_id entry s) custom) s.rows;
  last_id = max s.last_id (new_id entry s);
  stats = record {
    entry_count = s.stats.entry_count + 1;
    total_disk_space_bytes =
        s.stats.total_disk_space_bytes + (entry.size + entry.preview_size) % two64;
    queued_count =
        if status_eq entry.status queued then s.stats.queued_count + 1 else s.stats.queued_count;
  };
}

unfoldable pub create_entry : Env → Database → Entry → Store → Result (Entry × Store)
unfolding map_custom_fields
create_entry env db entry s = do
  require (env.is_valid_ulid db.id) Error.validation
  valid ← is_mime_of_type db.content_type entry.mime_type
  require valid Error.bad_mime_type
  custom ← map_custom_fields env db.custom_fields entry.custom_fields
  call env.begin_fails
  require (not (is_some (find_row (new_id entry s) s.rows))) Error.conflict
  call env.exec_fails
  call (entry.id == 0 && env.result_fails)
  call env.stats_fails
  call env.commit_fails
  ok (
    record entry {
      id = new_id entry s;
      created_at = env.now;
      updated_at = env.now;
      timestamp = some (or_now env entry.timestamp);
    },
    created env entry custom s,
  )

-- The processing-owned columns of a row.
unfoldable pub write_entry : Env → Entry → Row → Row
write_entry env entry r = record r {
  updated_at = env.now;
  filesize = entry.size;
  preview_filesize = entry.preview_size;
  filename = entry.file_name;
  status = entry.status;
  mime_type = entry.mime_type;
  media = merge_fields entry.media_fields r.media;
}

-- The queued counter of the database when a row goes from one status to another.
abbrev pub shift_queued : Bool → Bool → ℕ → ℕ
shift_queued false true n = n + 1
shift_queued true false n = n - 1
shift_queued _ _ n = n

abbrev differ : Bool → Bool → Bool
differ true true = false
differ false false = false
differ _ _ = true

-- A statement on `total_disk_space_bytes` is only sent for a delta other than 0.
abbrev pub move_total : ℕ → ℕ → ℕ
move_total delta total = if delta == 0 then total else apply_delta total delta

unfoldable pub entry_delta : Entry → Row → ℕ
entry_delta entry old = size_delta entry.size entry.preview_size old.filesize old.preview_filesize

-- The store with the row of `entry` rewritten and the statistics moved.
unfoldable pub rewritten : Env → Entry → Row → Store → Store
unfolding write_entry entry_delta
rewritten env entry old s = record s {
  rows = update_row entry.id (write_entry env entry) s.rows;
  stats = record s.stats {
    total_disk_space_bytes = move_total (entry_delta entry old) s.stats.total_disk_space_bytes;
    queued_count =
        shift_queued (status_eq old.status queued) (status_eq entry.status queued)
          s.stats.queued_count;
  };
}

unfoldable pub update_entry : Env → Text → Entry → Store → Result (Entry × Store)
update_entry env db_id entry s = do
  require (env.is_valid_ulid db_id) Error.validation
  call env.begin_fails
  call env.query_fails
  old ← or_error (find_row entry.id s.rows) Error.not_found
  call env.exec_fails
  let delta = entry_delta entry old
  let was = status_eq old.status queued
  call ((not (delta == 0) || differ was (status_eq entry.status queued)) && env.stats_fails)
  call env.commit_fails
  ok (record entry { updated_at = env.now }, rewritten env entry old s)

-- The user-editable columns of a row.
unfoldable pub write_metadata : Env → Entry → List (Column × Value) → Row → Row
write_metadata env entry custom r = record r {
  timestamp = elim entry.timestamp [ none ↦ 0 | some t ↦ t ];
  updated_at = env.now;
  filename = entry.file_name;
  custom = merge_columns custom r.custom;
}

unfoldable pub update_entry_metadata : Env → Text → Entry → Store → Result (Entry × Store)
unfolding write_metadata map_custom_fields
update_entry_metadata env db_id entry s = do
  require (env.is_valid_ulid db_id) Error.validation
  call env.query_fails
  custom ← map_custom_fields env s.custom_fields entry.custom_fields
  call env.exec_fails
  require (is_some (find_row entry.id s.rows)) Error.not_found
  ok (
    record entry { updated_at = env.now },
    record s { rows = update_row entry.id (write_metadata env entry custom) s.rows },
  )

unfoldable pub enqueue_entry : Env → Text → Entry → ℕ → Store → Result (Entry × Store)
enqueue_entry env db_id entry max_queued s = do
  require (env.is_valid_ulid db_id) Error.validation
  require (ltb 0 max_queued) Error.unavailable
  call env.begin_fails
  call env.query_fails
  old ← or_error (find_row entry.id s.rows) Error.not_found
  let delta = entry_delta entry old
  let was = status_eq old.status queued
  call ((not was || not (delta == 0)) && env.stats_fails)
  call (not was && env.result_fails)
  require (was || ltb s.stats.queued_count max_queued) Error.unavailable
  call env.exec_fails
  call env.commit_fails
  let entry' = record entry { status = queued }
  ok (record entry' { updated_at = env.now }, rewritten env entry' old s)

-- The queued counter after a bulk update; `queuedDelta` has a sign, so both ways are written out.
abbrev pub bulk_queued : Bool → ℕ → ℕ → ℕ → ℕ
bulk_queued true affected queued_before n =
    if leb queued_before affected
    then n + (affected - queued_before)
    else n - (queued_before - affected)
bulk_queued false affected queued_before n = n - queued_before

unfoldable pub restatused : Env → List ℕ → EntryStatus → Store → Store
restatused env ids status s = record s {
  rows = set_statuses ids status env.now s.rows;
  stats = record s.stats {
    queued_count =
        bulk_queued (status_eq status queued) (sum_by (among ids) s.rows)
          (sum_by (queued_among ids) s.rows) s.stats.queued_count;
  };
}

unfoldable pub update_entries_status :
    Env → Text → List ℕ → EntryStatus → Store → Result (Unit {0} × Store)
update_entries_status env db_id [] status s = do
  require (env.is_valid_ulid db_id) Error.validation
  ok (tt, s)
update_entries_status env db_id (i ∷ is) status s = do
  require (env.is_valid_ulid db_id) Error.validation
  let ids = i ∷ is
  call env.begin_fails
  call env.query_fails
  let queued_before = sum_by (queued_among ids) s.rows
  call env.exec_fails
  let affected = sum_by (among ids) s.rows
  require (ltb 0 affected) Error.not_found
  let to_queue = status_eq status queued
  let unchanged = (if to_queue then affected == queued_before else queued_before == 0)
  call (not unchanged && env.stats_fails)
  call env.commit_fails
  ok (tt, restatused env ids status s)

unfoldable pub deleted_meta : Row → DeletedEntryMeta
deleted_meta r = record { id = r.id; filesize = r.filesize; preview_size = r.preview_filesize }

-- The store with the row of a key deleted.
unfoldable pub without : ℕ → Row → Store → Store
without id old s = record s {
  rows = delete_row id s.rows;
  stats = record {
    entry_count = s.stats.entry_count - 1;
    total_disk_space_bytes =
        s.stats.total_disk_space_bytes - (old.filesize + old.preview_filesize) % two64;
    queued_count = shift_queued (status_eq old.status queued) false s.stats.queued_count;
  };
}

unfoldable pub delete_entry : Env → Text → ℕ → Store → Result (DeletedEntryMeta × Store)
unfolding deleted_meta
delete_entry env db_id id s = do
  require (env.is_valid_ulid db_id) Error.validation
  call env.begin_fails
  call env.exec_fails
  old ← or_error (find_row id s.rows) Error.not_found
  call env.stats_fails
  call env.commit_fails
  ok (deleted_meta old, without id old s)

-- The store with the rows of several keys deleted.
unfoldable pub without_all : List ℕ → Store → Store
without_all ids s =
    let gone = returned_rows ids s.rows in
    record s {
      rows = keep_rows ids s.rows;
      stats = record {
        entry_count = s.stats.entry_count - length gone;
        total_disk_space_bytes = s.stats.total_disk_space_bytes - sum_by row_bytes gone % two64;
        queued_count = s.stats.queued_count - sum_by (is_status queued) gone;
      };
    }

unfoldable pub delete_entries : Env → Text → List ℕ → Store → Result (List DeletedEntryMeta × Store)
unfolding deleted_meta
delete_entries env db_id [] s = do
  require (env.is_valid_ulid db_id) Error.validation
  err Error.not_found
delete_entries env db_id (i ∷ is) s = do
  require (env.is_valid_ulid db_id) Error.validation
  let ids = i ∷ is
  call env.begin_fails
  call env.exec_fails
  call env.result_fails
  let gone = returned_rows ids s.rows
  call (ltb 0 (length gone) && env.stats_fails)
  call env.commit_fails
  ok (map deleted_meta gone, without_all ids s)

unfoldable pub claim_row : Env → Row → Row
claim_row env r =
    if status_eq r.status queued then record r { status = processing; updated_at = env.now } else r

abbrev pub is_queued_row : Option Row → Bool
is_queued_row none = false
is_queued_row (some r) = status_eq r.status queued

unfoldable pub claimed : Env → ℕ → Bool → Store → Store
unfolding claim_row
claimed env id won s = record s {
  rows = update_row id (claim_row env) s.rows;
  stats = record s.stats { queued_count = shift_queued won false s.stats.queued_count };
}

unfoldable pub claim_queued_entry : Env → Text → ℕ → Store → Result (Bool × Store)
claim_queued_entry env db_id id s = do
  require (env.is_valid_ulid db_id) Error.validation
  call env.begin_fails
  call env.exec_fails
  call env.result_fails
  let won = is_queued_row (find_row id s.rows)
  call (won && env.stats_fails)
  call env.commit_fails
  ok (won, claimed env id won s)

unfoldable pub get_entries_by_status : Env → Text → EntryStatus → ℕ → Store → Result (List Row)
get_entries_by_status env db_id status limit s = do
  require (env.is_valid_ulid db_id) Error.validation
  call env.query_fails
  ok (select_status status limit s.rows)

unfoldable pub count_entries_by_status : Env → Text → EntryStatus → Store → Result ℕ
count_entries_by_status env db_id status s = do
  require (env.is_valid_ulid db_id) Error.validation
  call env.query_fails
  ok (count_status status s.rows)
