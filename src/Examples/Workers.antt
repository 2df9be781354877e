-- ===== src/Examples/Workers.antt =====
-- A dispatch pass over one database, and a worker whose conversion fails.
use media_hub_oss.Prelude.{◌≡◌, refl, true, false, [], ◌∷◌, ok}
use media_hub_oss.Repository.Types.{processing, Entry}
use media_hub_oss.Repository.Table.{find_row}
use media_hub_oss.Repository.Effects.{status_in}
use media_hub_oss.Storage.{has_file, file_size}
use media_hub_oss.Processing.Slots.{Slots}
use media_hub_oss.Processing.Pipeline.Keeping.{is_served, row_of}
use media_hub_oss.Processing.Worker.{Queries, WorkerEvents, Bench, run_dispatch_pass, run_worker}
use media_hub_oss.Processing.Worker.Capacity.{IsFairPass, run_dispatch_pass-IsFairPass}
use media_hub_oss.Processing.Worker.Runs.{RunsWell, IsSettled, run_worker-IsSettled}
use media_hub_oss.Examples.{works, works-Works, db_id, image_db, picture, vault}
use media_hub_oss.Examples.Uploads.{converter, full_disk}

abbrev queue : Queries
queue = record {
  pruned_at = 1_000;
  asked_at = λ id entry_id. 1_001;
  databases_with_queued = ok (db_id ∷ []);
  queued_entries = λ id limit. ok (picture ∷ record picture { id = 2 } ∷ []);
  claim = λ id entry_id. ok true;
  cancelled = λ id. false;
  cancelled_at = λ id entry_id. false;
}

abbrev slots : Slots
slots = record {
  n_ffmpeg_async = 2;
  n_ffmpeg_total = 3;
  active_async = 1;
  active_total = 1;
  has_queued_entries = true;
}

run_dispatch_pass-IsFairPass_example : IsFairPass queue slots [] (run_dispatch_pass queue [] slots)
run_dispatch_pass-IsFairPass_example = run_dispatch_pass-IsFairPass queue [] slots

abbrev worker : WorkerEvents
worker = record {
  now = 1_000;
  pipeline = full_disk;
  database_fails = false;
  spool_fails = false;
  read_fails = false;
  copy_fails = false;
  requeue = works;
}

abbrev bench : Bench
bench = record { slots = slots; vault = vault; retries = [] }

-- Entry 2 is processing.
abbrev claimed : Entry
claimed = record picture { id = 2; status = processing }

unserved : status_in is_served (row_of 2 vault) ≡ false
unfolding find_row
unserved = refl

at_hand : has_file 2 vault.files ≡ true
unfolding file_size
at_hand = refl

worker-RunsWell : RunsWell worker image_db
worker-RunsWell = record {
  calls = record { finish = works-Works; fail = works-Works; discard = works-Works };
  requeue = works-Works;
}

run_worker-IsSettled_example :
    IsSettled vault 2 (run_worker converter worker image_db claimed bench).vault
run_worker-IsSettled_example =
    run_worker-IsSettled converter worker image_db claimed bench worker-RunsWell unserved at_hand
