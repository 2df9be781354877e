-- ===== src/Processing/Worker.antt =====
-- internal/processing/worker.go: a dispatch pass, which claims queued entries for workers, and a
-- worker's run on a claimed entry. Slots that other goroutines take or give back during a pass are
-- not modelled here; Processing.Slots.Bounds has their interleaving. The guard around the passes is
-- in Processing.Trigger.
pub mod Capacity
pub mod Runs
use media_hub_oss.Prelude.{
  ℕ, zero, suc, ◌+◌, ◌-◌, min, Bool, true, false, not, ◌&&◌, ◌||◌, ltb, ◌==◌, if◌then◌else◌, Option,
  none, some, List, [], ◌∷◌, Result, ok, err, Error,
}
use media_hub_oss.Prelude.Text.{Text}
use media_hub_oss.Repository.Types.{queued, Database, Entry, Env}
use media_hub_oss.Repository.Entries.{update_entry}
use media_hub_oss.Storage.{has_file}
use media_hub_oss.Deletion.{Vault}
use media_hub_oss.Processing.Slots.{
  Slots, try_reserve_async_slot, release_async_slot, unreserve_async_slot, note_queued_entry,
}
use media_hub_oss.Processing.Retry.{
  RetryKey, Registry, note_claim_failure, clear_claim_retry, claim_deferred, prune,
}
use media_hub_oss.Processing.Plan.{Converter, determine_plan_for_entry}
use media_hub_oss.Processing.Pipeline.{Events, put_store, fail_processed_entry}
use media_hub_oss.Processing.Finalize.{finalize_entry_file}

pub data ClaimOutcome : Type 0 where
  claim_won claim_lost claim_aborted : ClaimOutcome

-- The repository's answers in a pass, when the context is cancelled, and the clock, which `prune` and
-- each `claimDeferred` read by themselves.
pub record Queries : Type 0 where
  pub pruned_at : ℕ
  pub asked_at : Text → ℕ → ℕ
  pub databases_with_queued : Result (List Text)
  -- the oldest queued entries, up to a limit
  pub queued_entries : Text → ℕ → Result (List Entry)
  pub claim : Text → ℕ → Result Bool
  pub cancelled : Text → Bool
  pub cancelled_at : Text → ℕ → Bool

abbrev pub key_of : Text → Entry → RetryKey
key_of db_id entry = record { db_id = db_id; entry_id = entry.id }

abbrev pub after_claim : Slots → Result Bool → ClaimOutcome × Slots
after_claim held (err e) = (claim_aborted, unreserve_async_slot held)
after_claim held (ok false) = (claim_lost, unreserve_async_slot held)
after_claim held (ok true) = (claim_won, held)

unfoldable pub try_claim_and_spawn :
    Queries → Registry → Text → Entry → Slots → ClaimOutcome × Slots
try_claim_and_spawn q retries db_id entry slots =
    if claim_deferred (q.asked_at db_id entry.id) (key_of db_id entry) retries
    then (claim_lost, slots)
    else let (held, got) = try_reserve_async_slot slots in
      if got then after_claim held (q.claim db_id entry.id) else (claim_aborted, slots)

-- A pass under way: what is left of the capacity, and the workers it has spawned.
pub record Pass : Type 0 where
  pub slots : Slots
  pub remaining : ℕ
  pub spawned : List (Text × Entry)
  pub aborted : Bool

abbrev pub claimed_one : Text → Entry → Pass → ClaimOutcome × Slots → Pass
claimed_one db_id entry p (claim_won, slots) = record {
  slots = slots;
  remaining = p.remaining - 1;
  spawned = (db_id, entry) ∷ p.spawned;
  aborted = false;
}
claimed_one db_id entry p (claim_lost, slots) = record p { slots = slots }
claimed_one db_id entry p (claim_aborted, slots) = record p { slots = slots; aborted = true }

-- The entries of one database.
unfoldable pub claim_entries : Queries → Registry → Text → List Entry → Pass → Pass
unfolding try_claim_and_spawn
claim_entries q retries db_id [] p = p
claim_entries q retries db_id (entry ∷ entries) p =
    let after = claimed_one db_id entry p (try_claim_and_spawn q retries db_id entry p.slots) in
    if p.aborted || (p.remaining == 0 || q.cancelled_at db_id entry.id)
    then p
    else claim_entries q retries db_id entries after

-- The databases in turn; one whose entries cannot be read is skipped.
unfoldable pub claim_databases : Queries → Registry → List Text → Pass → Pass
unfolding claim_entries
claim_databases q retries [] p = p
claim_databases q retries (db_id ∷ ids) p =
    if p.aborted || (p.remaining == 0 || q.cancelled db_id)
    then p
    else elim (q.queued_entries db_id p.remaining) [
      | err e ↦ claim_databases q retries ids p
      | ok entries ↦ claim_databases q retries ids (claim_entries q retries db_id entries p)
    ]

abbrev pub any : {A : Type 0} → List A → Bool
any [] = false
any (x ∷ xs) = true

-- The capacity that a pass may use.
abbrev pub free_slots : Slots → ℕ
free_slots s = min (s.n_ffmpeg_async - s.active_async) (s.n_ffmpeg_total - s.active_total)

abbrev pub start_pass : Slots → Pass
start_pass s = record { slots = s; remaining = free_slots s; spawned = []; aborted = false }

pub record PassResult : Type 0 where
  pub slots : Slots
  pub retries : Registry
  pub spawned : List (Text × Entry)
  -- should another pass follow at once?
  pub more : Bool

abbrev pub pass_result : Registry → Pass → PassResult
pass_result retries p = record {
  slots = p.slots;
  retries = retries;
  spawned = p.spawned;
  more = not p.aborted && (any p.spawned && not (p.remaining == 0));
}

unfoldable pub run_dispatch_pass : Queries → Registry → Slots → PassResult
unfolding claim_databases
run_dispatch_pass q retries slots =
    let kept = prune q.pruned_at retries in
    elim q.databases_with_queued [
      | err e ↦ record { slots = slots; retries = kept; spawned = []; more = false }
      | ok ids ↦
          let hinted = record slots { has_queued_entries = any ids } in
          if not (any ids) || free_slots hinted == 0
          then record { slots = hinted; retries = kept; spawned = []; more = false }
          else pass_result kept (claim_databases q kept ids (start_pass hinted))
    ]

-- What a worker meets before the pipeline of finalize.go, and in it.
pub record WorkerEvents : Type 0 where
  pub now : ℕ
  pub pipeline : Events
  pub database_fails : Bool
  pub spool_fails : Bool
  pub read_fails : Bool
  pub copy_fails : Bool
  pub requeue : Env

-- What a worker changes.
pub record Bench : Type 0 where
  pub slots : Slots
  pub vault : Vault
  pub retries : Registry

abbrev pub after_requeue : Bench → RetryKey → ℕ → Result Entry × Vault → Bench
after_requeue b key now (err e, v) = record b { vault = v }
after_requeue b key now (ok entry, v) = record {
  slots = (note_queued_entry b.slots).0;
  vault = v;
  retries = note_claim_failure now key b.retries;
}

unfoldable pub requeue_claimed_entry : WorkerEvents → Text → Entry → Bench → Bench
requeue_claimed_entry w db_id entry b = after_requeue b (key_of db_id entry) w.now (
    put_store b.vault
      (update_entry w.requeue db_id (record entry { status = queued }) b.vault.store))

-- finalizeEntryFile clears the retries of an entry that it fails; they are cleared in any case.
unfoldable pub finish_claimed_entry : Converter → WorkerEvents → Database → Entry → Bench → Bench
finish_claimed_entry mc w db entry b = record {
  slots = b.slots;
  vault =
      (finalize_entry_file w.pipeline db entry (determine_plan_for_entry mc db entry) b.vault).1;
  retries = clear_claim_retry (key_of db.id entry) b.retries;
}

unfoldable pub fail_claimed_entry : WorkerEvents → Database → Entry → Bench → Bench
fail_claimed_entry w db entry b = record {
  slots = b.slots;
  vault = (fail_processed_entry w.pipeline db entry b.vault).1;
  retries = clear_claim_retry (key_of db.id entry) b.retries;
}

-- `db` is the database that GetDatabase returns, unless it fails.
unfoldable pub run_claimed_entry : Converter → WorkerEvents → Database → Entry → Bench → Bench
unfolding requeue_claimed_entry finish_claimed_entry fail_claimed_entry
run_claimed_entry mc w db entry b =
    if w.database_fails
    then requeue_claimed_entry w db.id entry b
    else if w.spool_fails
    then requeue_claimed_entry w db.id entry b
    else if w.read_fails
    then requeue_claimed_entry w db.id entry b
    else if not (has_file entry.id b.vault.files)
    then fail_claimed_entry w db entry b
    else if w.copy_fails
    then requeue_claimed_entry w db.id entry b
    else finish_claimed_entry mc w db entry b

-- The goroutine that tryClaimAndSpawn starts.
unfoldable pub run_worker : Converter → WorkerEvents → Database → Entry → Bench → Bench
run_worker mc w db entry b =
    let done = run_claimed_entry mc w db entry b in
    record done { slots = (release_async_slot done.slots).0 }
