-- ===== src/Housekeeping.antt =====
-- internal/housekeeping/housekeeping.go: the sweeps over one media database.
-- A loop runs on fuel, one unit for each round, and gives none when it runs out.
pub mod Deletable
pub mod Sweeps
pub mod Runs
use media_hub_oss.Prelude.{
  ℕ, zero, suc, ◌+◌, ◌-◌, ◌%◌, ◌/◌, ℤ, pos, Bool, true, false, ◌&&◌, ◌||◌, Option, none, some, List,
  [], ◌∷◌, map, ltb, leb, ◌==◌, if◌then◌else◌, length, take, filter, sum_by, Result, ok, err, Error,
}
use media_hub_oss.Prelude.Text.{Text, codes}
use media_hub_oss.Repository.Types.{
  ready, error, status_eq, Database, DatabaseHk, Row, Env, DeletedEntryMeta,
}
use media_hub_oss.Repository.Table.{two64}
use media_hub_oss.Repository.Query.{QueryOptions, get_entries}
use media_hub_oss.Deletion.{Vault, Around, delete_multiple_safe}

unfoldable pub deletable_row : Row → Bool
deletable_row r = status_eq r.status ready || status_eq r.status error

unfoldable pub filter_deletable_entries : List Row → List Row
filter_deletable_entries = filter deletable_row

abbrev pub row_id : Row → ℕ
row_id r = r.id

abbrev pub meta_bytes : DeletedEntryMeta → ℕ
meta_bytes m = m.filesize + m.preview_size

-- The rows deleted, the bytes freed, whether an error occurred, and what is left.
unfoldable pub delete_entries_batch : Around → Text → List Row → Vault → (ℕ × ℕ × Bool) × Vault
delete_entries_batch around db_id [] v = ((0, 0, false), v)
delete_entries_batch around db_id (r ∷ rs) v =
    let ((gone, had_error), w) = delete_multiple_safe around db_id (map row_id (r ∷ rs)) v in
    ((length gone, sum_by meta_bytes gone % two64, had_error), w)

-- What a run meets: the lock, the clock of the database in nanoseconds, and in each round (counted by the fuel
-- that is left) the driver and the file system.
pub record Weather : Type 0 where
  pub acquired : Result Bool
  pub db_time : Result ℕ
  pub fetch : ℕ → Env
  pub around : ℕ → Around
  pub called : Result (Unit {0})

pub record Progress : Type 0 where
  pub total_deleted : ℕ
  pub total_freed : ℕ
  pub had_error : Bool
  pub vault : Vault

-- The oldest entries of a deletable status, up to a time if one is given.
abbrev pub oldest : Option ℕ → QueryOptions
oldest cutoff = record {
  limit = pos 100;
  offset = pos 0;
  order = codes "asc";
  sort_by = [];
  time_field = [];
  t_start = none;
  t_end = cutoff;
  statuses = ready ∷ error ∷ [];
}

abbrev pub failing : Progress → Progress
failing p = record p { had_error = true }

-- The totals after a batch.
abbrev pub counting : (ℕ × ℕ × Bool) × Vault → Progress → Progress
counting ((deleted, freed, bad), v) p = record {
  total_deleted = p.total_deleted + deleted;
  total_freed = (p.total_freed + freed) % two64;
  had_error = p.had_error || bad;
  vault = v;
}

-- One batch of a loop: the loop ends where there is nothing to delete and where the batch says to
-- stop, and otherwise goes on with the bytes freed and the new totals.
unfoldable pub sweep_batch :
    Around
    → Text
    → (ℕ × ℕ × Bool → Bool)
    → Progress
    → (ℕ → Progress → Option Progress)
    → List Row
    → Option Progress
sweep_batch around db_id stops p continue [] = some p
sweep_batch around db_id stops p continue (r ∷ rs) =
    let batch = delete_entries_batch around db_id (r ∷ rs) p.vault in
    if stops batch.0 then some (counting batch p) else continue batch.0.1 (counting batch p)

-- One round: a batch chosen from the deletable ones of the entries fetched.
unfoldable pub sweep_round :
    Around
    → Text
    → (ℕ × ℕ × Bool → Bool)
    → (List Row → List Row)
    → Progress
    → (ℕ → Progress → Option Progress)
    → Result (List Row)
    → Option Progress
unfolding sweep_batch filter_deletable_entries
sweep_round around db_id stops choose p continue (err e) = some (failing p)
sweep_round around db_id stops choose p continue (ok entries) =
    sweep_batch around db_id stops p continue (choose (filter_deletable_entries entries))

abbrev pub no_row_deleted : ℕ × ℕ × Bool → Bool
no_row_deleted (deleted, freed, bad) = bad || deleted == 0

abbrev pub no_space_freed : ℕ × ℕ × Bool → Bool
no_space_freed (deleted, freed, bad) = bad || (deleted == 0 || freed == 0)

abbrev pub all_of : List Row → List Row
all_of rows = rows

unfoldable pub max_age_sweep : Weather → Text → ℕ → ℕ → Progress → Option Progress
unfolding sweep_round
max_age_sweep w db_id cutoff zero p = none
max_age_sweep w db_id cutoff (suc n) p =
    sweep_round (w.around n) db_id no_row_deleted all_of p (λ freed. max_age_sweep w db_id cutoff n)
      (get_entries (w.fetch n) db_id (oldest (some cutoff)) p.vault.store)

-- `deletable[:slideEnd]`: the entries up to the first that brings the space under the limit.
-- `target` is the space of those passed so far.
unfoldable pub just_enough : ℕ → ℕ → ℕ → List Row → List Row
just_enough current limit target [] = []
just_enough current limit target (r ∷ rs) =
    let target' = (target + (r.filesize + r.preview_filesize) % two64) % two64 in
    r
    ∷ (if leb current target' || leb (current - target') limit
        then []
        else just_enough current limit target' rs)

abbrev pub less : ℕ → ℕ → ℕ
less current freed = if ltb freed current then current - freed else 0

unfoldable pub disk_space_sweep : Weather → Text → ℕ → ℕ → ℕ → Progress → Option Progress
unfolding sweep_round just_enough
disk_space_sweep w db_id limit zero current p = none
disk_space_sweep w db_id limit (suc n) current p =
    if leb current limit
    then some p
    else sweep_round (w.around n) db_id no_space_freed (just_enough current limit 0) p
        (λ freed. disk_space_sweep w db_id limit n (less current freed))
        (get_entries (w.fetch n) db_id (oldest none) p.vault.store)

abbrev pub progress : Vault → Progress
progress v = record { total_deleted = 0; total_freed = 0; had_error = false; vault = v }

abbrev pub keys_left : Vault → ℕ
keys_left v = length v.store.rows

abbrev pub to_result : Option Progress → Option (Result Progress)
to_result none = none
to_result (some p) = some (ok p)

-- The sweep for MaxAge, with the time of the database; a loop is given more rounds than rows.
unfoldable pub sweep_old : Weather → Database → Vault → Result ℕ → Option (Result Progress)
sweep_old w db v (err e) = some (err e)
sweep_old w db v (ok now) =
    let cutoff = (now - db.housekeeping.max_age) / 1_000_000 in
    to_result (max_age_sweep w db.id cutoff (suc (keys_left v)) (progress v))

unfoldable pub age_phase : Weather → Database → Vault → Option (Result Progress)
unfolding sweep_old
age_phase w db v =
    if ltb 0 db.housekeeping.max_age then sweep_old w db v w.db_time else some (ok (progress v))

unfoldable pub space_phase : Weather → Database → Progress → Option Progress
space_phase w db p =
    if ltb 0 db.housekeeping.disk_space
    then disk_space_sweep w db.id db.housekeeping.disk_space (suc (keys_left p.vault))
        (less db.stats.total_disk_space_bytes p.total_freed) p
    else some p

abbrev pub stamped : Result (Unit {0}) → Progress → Progress
stamped (ok t) p = p
stamped (err e) p = failing p

-- HouseKeepingWasCalled, at the end of a run.
abbrev pub finish : Weather → Option Progress → Option (Result Progress)
finish w none = none
finish w (some q) = some (ok (stamped w.called q))

abbrev pub after_age_phase :
    Weather → Database → Option (Result Progress) → Option (Result Progress)
after_age_phase w db none = none
after_age_phase w db (some (err e)) = some (err e)
after_age_phase w db (some (ok p)) = finish w (space_phase w db p)

abbrev pub under_lock : Result Bool → Option (Result Progress) → Option (Result Progress)
under_lock (err e) run = some (err e)
under_lock (ok false) run = some (err Error.lock_not_acquired)
under_lock (ok true) run = run

-- RunDBHousekeeping: the totals, whether any error occurred, and what is left. An error result
-- leaves before the sweeps.
unfoldable pub run_db_housekeeping : Weather → Database → Vault → Option (Result Progress)
unfolding age_phase space_phase
run_db_housekeeping w db v = under_lock w.acquired (after_age_phase w db (age_phase w db v))
