-- ===== src/Processing/Worker/Runs.antt =====
-- A worker's run on a claimed entry: however it ends, the entry is settled, and the slot is free.
use mathlib.Core.Path.{subst}
use media_hub_oss.Prelude.{
  ℕ, ◌≡◌, refl, sym, Bool, true, false, not, if◌then◌else◌, Result, ok, err, ◌||◌,
}
use media_hub_oss.Repository.Types.{queued, Entry, Database}
use media_hub_oss.Repository.Queue.{Works}
use media_hub_oss.Repository.Effects.{status_in}
use media_hub_oss.Repository.Entries.{update_entry}
use media_hub_oss.Storage.{has_file}
use media_hub_oss.Deletion.{Vault}
use media_hub_oss.Processing.Retry.{RetryKey}
use media_hub_oss.Processing.Plan.{Converter, determine_plan_for_entry}
use media_hub_oss.Processing.Pipeline.{put_store}
use media_hub_oss.Processing.Pipeline.Posts.{Post, returned, raised}
use media_hub_oss.Processing.Pipeline.Keeping.{is_served, row_of, Written, is_processing, Touched}
use media_hub_oss.Processing.Pipeline.Settling.{
  CallsWork, Settles, finished-Settles, failed_processing,
}
use media_hub_oss.Processing.Finalize.{finalize_entry_file}
use media_hub_oss.Processing.Finalize.Settled.{finalize_entry_file-Settles}
use media_hub_oss.Processing.Worker.{
  WorkerEvents, Bench, key_of, after_requeue, requeue_claimed_entry, finish_claimed_entry,
  fail_claimed_entry, run_claimed_entry, run_worker,
}

-- The calls that end a run work.
pub record RunsWell (w : WorkerEvents) (db : Database) : Type 0 where
  pub calls : CallsWork w.pipeline db
  pub requeue : Works w.requeue db.id

Settles-weaken : {F G : Type 0} {v w : Vault} {i : ℕ} → (G → F) → Settles F v i w → Settles G v i w
Settles-weaken k s = record {
  touched = s.touched;
  stored = s.stored;
  settled = λ g. s.settled (k g);
}

after_requeue-vault :
    (b : Bench) (key : RetryKey) (now : ℕ) (r : Result Entry × Vault)
    → (after_requeue b key now r).vault ≡ r.1
after_requeue-vault b key now (ok e, v) = refl
after_requeue-vault b key now (err e, v) = refl

module _ (mc : Converter) (w : WorkerEvents) (db : Database) (entry : Entry) (b : Bench) where
  abbrev Ends : Bench → Type 0
  Ends c = Settles (RunsWell w db) b.vault entry.id c.vault

  -- The entry as it was claimed: its row is neither ready nor queued, and its file is there.
  claimed-Written :
      status_in is_served (row_of entry.id b.vault) ≡ false
      → has_file entry.id b.vault.files ≡ true
      → Written b.vault entry.id b.vault
  claimed-Written h k = record {
    pending = record { touched = record { rows = λ j e. refl; files = λ j e. refl }; unserved = h };
    stored = k;
  }

  requeue-Ends : Written b.vault entry.id b.vault → Ends (requeue_claimed_entry w db.id entry b)
  unfolding requeue_claimed_entry
  requeue-Ends p =
      subst (λ u. Settles (RunsWell w db) b.vault entry.id u)
        (sym (
          after_requeue-vault b (key_of db.id entry) w.now (
            put_store b.vault
              (update_entry w.requeue db.id (record entry { status = queued }) b.vault.store))))
        (Settles-weaken
          (λ f. record { finish = f.requeue; fail = f.calls.fail; discard = f.calls.discard })
          (finished-Settles b.vault (record w.pipeline { finish = w.requeue }) db
            (record entry { status = queued }) b.vault refl p))

  finish-Ends : Written b.vault entry.id b.vault → Ends (finish_claimed_entry mc w db entry b)
  unfolding finish_claimed_entry
  finish-Ends p =
      Settles-weaken (λ f. f.calls)
        (last
          (finalize_entry_file w.pipeline db entry (determine_plan_for_entry mc db entry) b.vault)
          (finalize_entry_file-Settles b.vault w.pipeline db entry
            (determine_plan_for_entry mc db entry) b.vault p.pending))
    where
      last :
          (r : Result (Unit {0}) × Vault)
          → Post
              (Settles (CallsWork w.pipeline db) b.vault entry.id)
              (λ (t : Unit {0}) u. Settles (CallsWork w.pipeline db) b.vault entry.id u)
              r
          → Settles (CallsWork w.pipeline db) b.vault entry.id r.1
      last _ (returned s) = s
      last _ (raised s) = s

  fail-Ends : Written b.vault entry.id b.vault → Ends (fail_claimed_entry w db entry b)
  unfolding fail_claimed_entry
  fail-Ends p =
      Settles-weaken (λ f. f.calls)
        (failed_processing b.vault w.pipeline db entry b.vault p.pending)

  either : (c : Bool) (x y : Bench) → Ends x → Ends y → Ends (if c then x else y)
  either true x y p q = p
  either false x y p q = q

  run_worker-Settles :
      status_in is_served (row_of entry.id b.vault) ≡ false
      → has_file entry.id b.vault.files ≡ true
      → Settles (RunsWell w db) b.vault entry.id (run_worker mc w db entry b).vault
  unfolding run_worker run_claimed_entry
  run_worker-Settles h k =
      let p = claimed-Written h k in
      either w.database_fails _ _ (requeue-Ends p) (
        either w.spool_fails _ _ (requeue-Ends p) (
          either w.read_fails _ _ (requeue-Ends p) (
            either (not (has_file entry.id b.vault.files)) _ _ (fail-Ends p)
              (either w.copy_fails _ _ (requeue-Ends p) (finish-Ends p)))))

-- The entry is not processing, and ready or queued only with its file; nothing else has changed.
pub record IsSettled (v : Vault) (i : ℕ) (w : Vault) : Type 0 where
  pub touched : Touched i v w
  pub stored : (not (status_in is_served (row_of i w)) || has_file i w.files) ≡ true
  pub ended : status_in is_processing (row_of i w) ≡ false

-- Where the calls that end a run work, a worker's run on a claimed entry whose file is in storage
-- touches no other entry's row or file, leaves the entry ready or queued only with its file, and does
-- not leave it as processing, whether the run succeeds, fails or is put off.
pub run_worker-IsSettled :
    (mc : Converter) (w : WorkerEvents) (db : Database) (entry : Entry) (b : Bench)
    → RunsWell w db
    → status_in is_served (row_of entry.id b.vault) ≡ false
    → has_file entry.id b.vault.files ≡ true
    → IsSettled b.vault entry.id (run_worker mc w db entry b).vault
run_worker-IsSettled mc w db entry b well h k =
    let s = run_worker-Settles mc w db entry b h k in
    record {
      touched = s.touched;
      stored =
          implied (status_in is_served (row_of entry.id (run_worker mc w db entry b).vault)) _
            s.stored;
      ended = s.settled well;
    }
  where
    implied : (x y : Bool) → (x ≡ true → y ≡ true) → (not x || y) ≡ true
    implied true y f = f refl
    implied false y f = refl
