-- ===== src/Housekeeping/Runs.antt =====
-- A whole run of housekeeping on one database.
use media_hub_oss.Prelude.{
  ℕ, ◌≡◌, arith, Bool, true, false, Option, none, some, if◌then◌else◌, Result, ok, err, Error, ltb,
  ◌||◌,
}
use media_hub_oss.Repository.Types.{Row, Database, processing, queued, deleting, status_eq}
use media_hub_oss.Repository.Table.{find_row}
use media_hub_oss.Repository.Consistency.{IsConsistent}
use media_hub_oss.Deletion.{Vault}
use media_hub_oss.Housekeeping.{
  Weather, Progress, progress, age_phase, space_phase, run_db_housekeeping, stamped, to_result,
  sweep_old, finish, after_age_phase, under_lock, deletable_row,
}
use media_hub_oss.Housekeeping.Deletable.{is_deletable}
use media_hub_oss.Housekeeping.Sweeps.{
  Ends, ended, Ends-if, Keeps, unchanged, max_age_sweep-Keeps, disk_space_sweep-Keeps,
}

-- A run ends: refused before the sweeps, with nothing touched, or with the property.
pub data Runs (P : Vault → Type 0) : Option (Result Progress) → Type 0 where
  refused : {e : Error} → Runs P (some (err e))
  swept : {p : Progress} → P p.vault → Runs P (some (ok p))

Runs-if :
    (P : Vault → Type 0) (b : Bool) (x y : Option (Result Progress))
    → Runs P x
    → Runs P y
    → Runs P (if b then x else y)
Runs-if P true x y h k = h
Runs-if P false x y h k = k

under_lock-Runs :
    (P : Vault → Type 0) (r : Result Bool) (o : Option (Result Progress))
    → Runs P o
    → Runs P (under_lock r o)
under_lock-Runs P (err e) o h = refused
under_lock-Runs P (ok false) o h = refused
under_lock-Runs P (ok true) o h = h

module _ (i : ℕ) (v : Vault) (in_flight : is_deletable (find_row i v.store.rows) ≡ false) where
  to_result-Runs : (o : Option Progress) → Ends (Keeps i v) o → Runs (Keeps i v) (to_result o)
  to_result-Runs _ (ended k) = swept k

  sweep_old-Keeps :
      (w : Weather) (db : Database) (now : Result ℕ)
      → IsConsistent v.store
      → Runs (Keeps i v) (sweep_old w db v now)
  unfolding sweep_old
  sweep_old-Keeps w db (err e) h = refused
  sweep_old-Keeps w db (ok now) h = to_result-Runs _ (
      max_age_sweep-Keeps i v in_flight w db.id _ _ (progress v) (omega arith)
        (unchanged i v in_flight h))

  age_phase-Keeps :
      (w : Weather) (db : Database) → IsConsistent v.store → Runs (Keeps i v) (age_phase w db v)
  unfolding age_phase
  age_phase-Keeps w db h =
      Runs-if (Keeps i v) (ltb 0 db.housekeeping.max_age) _ _ (sweep_old-Keeps w db w.db_time h)
        (swept (unchanged i v in_flight h))

  space_phase-Keeps :
      (w : Weather) (db : Database) (p : Progress)
      → Keeps i v p.vault
      → Ends (Keeps i v) (space_phase w db p)
  unfolding space_phase
  space_phase-Keeps w db p k =
      Ends-if (Keeps i v) (ltb 0 db.housekeeping.disk_space) _ _
        (disk_space_sweep-Keeps i v in_flight w db.id db.housekeeping.disk_space _ _ p (omega arith)
          k)
        (λ e. ended k)

  finish-Runs :
      (w : Weather) (o : Option Progress) → Ends (Keeps i v) o → Runs (Keeps i v) (finish w o)
  finish-Runs w _ (ended {p} k) = swept (kept w.called p k)
    where
      kept :
          (r : Result (Unit {0})) (q : Progress) → Keeps i v q.vault → Keeps i v (stamped r q).vault
      kept (ok t) q k = k
      kept (err e) q k = k

  after_age_phase-Runs :
      (w : Weather) (db : Database) (o : Option (Result Progress))
      → Runs (Keeps i v) o
      → Runs (Keeps i v) (after_age_phase w db o)
  after_age_phase-Runs w db _ refused = refused
  after_age_phase-Runs w db _ (swept {p} k) = finish-Runs w _ (space_phase-Keeps w db p k)

-- Entries that the upload, queue and deletion workflows own.
abbrev pub is_in_flight : Option Row → Bool
is_in_flight none = false
is_in_flight (some r) =
    status_eq r.status processing || (status_eq r.status queued || status_eq r.status deleting)

in_flight_kept : (o : Option Row) → is_in_flight o ≡ true → is_deletable o ≡ false
unfolding deletable_row
in_flight_kept none h = ground (arith, h)
in_flight_kept (some r) h = ground (arith, h)

-- RunDBHousekeeping on a consistent database comes to an end, and never touches an entry that is in
-- flight (processing, queued or being deleted): whatever fails on the way, the entry has the row, the
-- file and the preview that it had, and the statistics equal the contents of the entry table.
pub run_db_housekeeping-in_flight :
    (i : ℕ) (v : Vault) (w : Weather) (db : Database)
    → is_in_flight (find_row i v.store.rows) ≡ true
    → IsConsistent v.store
    → Runs (Keeps i v) (run_db_housekeeping w db v)
unfolding run_db_housekeeping
run_db_housekeeping-in_flight i v w db h c =
    let kept = in_flight_kept (find_row i v.store.rows) h in
    under_lock-Runs (Keeps i v) w.acquired _
      (after_age_phase-Runs i v kept w db (age_phase w db v) (age_phase-Keeps i v kept w db c))
