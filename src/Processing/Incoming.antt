-- ===== src/Processing/Incoming.antt =====
-- internal/processing/incoming.go: an upload up to its answer, and the goroutine that it leaves.
-- The steps on the vault come first; the functions on `Node` put the slots around them. Closing
-- temporary files has no effect here, and a released slot's call for a dispatch pass is left to
-- Processing.Trigger.
pub mod SlotUse
pub mod Served
pub mod Queued
pub mod Careful
pub mod Uploads
use media_hub_oss.Prelude.{
  ℕ, Bool, true, false, not, ◌||◌, ◌&&◌, Option, none, some, List, [], ◌∷◌, leb, ◌==◌,
  if◌then◌else◌, Result, ok, err, Error,
}
use media_hub_oss.Prelude.Text.{Text}
use media_hub_oss.Media.Mime.{get_metadata_fields}
use media_hub_oss.Repository.Types.{ready, processing, error, queued, Database, Entry}
use media_hub_oss.Repository.Entries.{
  update_entry, update_entries_status, delete_entry, enqueue_entry, count_entries_by_status,
}
use media_hub_oss.Storage.{has_file}
use media_hub_oss.Deletion.{Vault}
use media_hub_oss.Processing.Slots.{
  Slots, try_reserve_sync_slot, release_sync_slot, try_reserve_async_slot, release_async_slot,
  unreserve_async_slot, note_queued_entry,
}
use media_hub_oss.Processing.Plan.{Converter, ProcessingPlan, needs_slot, determine_conversion_plan}
use media_hub_oss.Processing.Pipeline.{
  EntryRequest, Events, M, ◌>>=◌, ◌>>◌, done, fail, fail_if, given, relay, repo, ignore, on_error,
  write_step, remove_step, create_preliminary_entry, fail_upload_entry, store_processed_stream,
  generate_and_store_preview, has_fields, with_probed,
}
use media_hub_oss.Processing.Finalize.{finalize_entry_file}

-- The goroutine that an upload leaves behind.
pub data Job : Type 0 where
  no_job : Job
  preview_job : Entry → Bool → Job
  finalize_job : Entry → ProcessingPlan → Job

-- The stream to store: the conversion's output, or the upload itself.
unfoldable pub convert_upload : Events → Database → Entry → ProcessingPlan → M ℕ
convert_upload ev db entry plan =
    if plan.needs_conversion
    then on_error (given ev.converted Error.failure) (λ e. fail_upload_entry ev db entry)
    else done ev.original

-- A converted file is probed from disk, the original through the stream, which is rewound first.
unfoldable pub rewind_upload : Events → Database → Entry → ProcessingPlan → M (Unit {0})
rewind_upload ev db entry plan =
    on_error
      (fail_if
        (has_fields (get_metadata_fields db.content_type)
          && (not plan.needs_conversion && ev.seek_fails))
        Error.failure)
      (λ e. fail_upload_entry ev db entry)

unfoldable pub mark_entry_ready : Events → Database → Entry → M Entry
mark_entry_ready ev db entry =
    on_error (repo (update_entry ev.finish db.id (record entry { status = ready })))
      (λ e. fail_upload_entry ev db (record entry { status = ready }))

unfoldable pub hand_to_preview : Events → Database → Entry → M Entry
hand_to_preview ev db entry =
    on_error (repo (update_entry ev.finish db.id (record entry { status = processing })))
      (λ e. fail_upload_entry ev db (record entry { status = processing }))

-- processSynchronously, inside its slot.
unfoldable pub store_synchronously :
    Events → Database → EntryRequest → ProcessingPlan → M (Entry × Job)
store_synchronously ev db req plan = do
  created ← create_preliminary_entry ev db req plan true
  size ← convert_upload ev db created plan
  rewind_upload ev db created plan
  let probed = with_probed ev db created
  written ← store_processed_stream ev db probed size
  let stored = record probed { size = written }
  if plan.wants_preview && plan.can_gen_preview
      then (do
        entry ← hand_to_preview ev db stored
        done (entry, preview_job entry plan.needs_conversion))
      else (do entry ← mark_entry_ready ev db stored; done (entry, no_job))

-- processAsynchronously, inside its slot: `temp_fails` is a claimTempFile that fails.
unfoldable pub hand_to_worker : Events → Database → EntryRequest → ProcessingPlan → M (Entry × Job)
hand_to_worker ev db req plan = do
  fail_if ev.temp_fails Error.failure
  created ← create_preliminary_entry ev db req plan false
  done (created, finalize_job created plan)

-- discardEntry
unfoldable pub discard_entry : Events → Database → ℕ → M (Unit {0})
discard_entry ev db id = ignore (
    on_error (repo (delete_entry ev.discard db.id id))
      (λ e. ignore (repo (update_entries_status ev.mark db.id (id ∷ []) error))))

unfoldable pub withdraw : Events → Database → Entry → M (Unit {0})
withdraw ev db entry = do ignore (remove_step ev.broken entry.id); discard_entry ev db entry.id

-- `int(queuedCount) >= db.NMaxQueued`
unfoldable pub queue_has_room : Events → Database → M (Unit {0})
queue_has_room ev db v = elim (count_entries_by_status ev.count db.id queued v.store) [
  | err e ↦ (err e, v)
  | ok n ↦ fail_if (leb db.n_max_queued n) Error.unavailable v
]

unfoldable pub queue_incoming_file : Events → Database → EntryRequest → ProcessingPlan → M Entry
queue_incoming_file ev db req plan = do
  fail_if (plan.needs_conversion && not plan.can_convert) Error.failure
  fail_if (db.n_max_queued == 0) Error.unavailable
  queue_has_room ev db
  fail_if ev.seek_fails Error.failure
  created ← create_preliminary_entry ev db req plan false
  size ← on_error (write_step ev.write_fails created.id ev.original) (λ e. withdraw ev db created)
  on_error (repo (enqueue_entry ev.enqueue db.id (record created { size = size }) db.n_max_queued))
      (λ e. withdraw ev db (record created { size = size }))

-- One node of the server: the database that an upload goes to, and the processor's slots.
pub record Node : Type 0 where
  pub slots : Slots
  pub vault : Vault

abbrev pub Answer : Type 0
Answer = Result (Entry × Job) × Node

abbrev pub is_handed_off : Job → Bool
is_handed_off no_job = false
is_handed_off _ = true

-- `defer` of processSynchronously: the slot is released unless a preview goroutine has it.
abbrev pub leave_sync : Slots → Result (Entry × Job) × Vault → Answer
leave_sync held (err e, v) = (err e, record { slots = (release_sync_slot held).0; vault = v })
leave_sync held (ok (entry, job), v) = (
  ok (entry, job),
  record { slots = if is_handed_off job then held else (release_sync_slot held).0; vault = v },
)

abbrev pub leave_async : Slots → Result (Entry × Job) × Vault → Answer
leave_async held (err e, v) = (err e, record { slots = unreserve_async_slot held; vault = v })
leave_async held (ok a, v) = (ok a, record { slots = held; vault = v })

abbrev pub keep_slots : Slots → Result (Entry × Job) × Vault → Answer
keep_slots slots (r, v) = (r, record { slots = slots; vault = v })

unfoldable pub process_synchronously :
    Events → Database → EntryRequest → ProcessingPlan → Node → Answer
process_synchronously ev db req plan n =
    if plan.needs_conversion && not plan.can_convert
    then (err Error.failure, n)
    else if needs_slot plan
    then (let (held, got) = try_reserve_sync_slot n.slots in
        if got
        then leave_sync held (store_synchronously ev db req plan n.vault)
        else (err Error.resource_exhausted, n))
    else keep_slots n.slots (store_synchronously ev db req plan n.vault)

unfoldable pub process_asynchronously :
    Events → Database → EntryRequest → ProcessingPlan → Node → Answer
process_asynchronously ev db req plan n =
    if plan.needs_conversion && not plan.can_convert
    then (err Error.failure, n)
    else if needs_slot plan
    then (let (held, got) = try_reserve_async_slot n.slots in
        if got
        then leave_async held (hand_to_worker ev db req plan n.vault)
        else (err Error.resource_exhausted, n))
    else keep_slots n.slots (hand_to_worker ev db req plan n.vault)

abbrev pub after_queueing : Slots → Result Entry × Vault → Answer
after_queueing slots (err e, v) = (err e, record { slots = slots; vault = v })
after_queueing slots (ok entry, v) =
    (ok (entry, no_job), record { slots = (note_queued_entry slots).0; vault = v })

-- An upload that finds no slot is queued instead; any other error is the answer.
abbrev pub or_queue : Events → Database → EntryRequest → ProcessingPlan → Answer → Answer
or_queue ev db req plan (err Error.resource_exhausted, n) =
    after_queueing n.slots (queue_incoming_file ev db req plan n.vault)
or_queue ev db req plan (r, n) = (r, n)

-- `on_disk`: the HTTP layer has spooled the upload to disk.
unfoldable pub process_incoming_entry :
    Converter → Events → Database → EntryRequest → Bool → Text → Text → Node → Answer
process_incoming_entry mc ev db req on_disk mime original_name n =
    elim (determine_conversion_plan mc db mime original_name req.file_name) [
      | err e ↦ (err e, n)
      | ok plan ↦ or_queue ev db req plan (
          if on_disk
          then process_asynchronously ev db req plan n
          else process_synchronously ev db req plan n)
    ]

abbrev pub preview_size_of : Result ℕ → ℕ
preview_size_of (ok n) = n
preview_size_of (err e) = 0

-- The entry becomes ready with or without its preview.
unfoldable pub finish_preview :
    Events → Database → Entry → Result ℕ × Vault → Result (Unit {0}) × Vault
finish_preview ev db entry (r, v) =
    ignore
      (repo (
        update_entry ev.finish db.id
          (record entry { status = ready; preview_size = preview_size_of r })))
      v

-- generatePreviewInBackground without its slot: a converted file is at hand, an unconverted one is
-- read back from storage.
unfoldable pub generate_preview_in_background : Events → Database → Entry → Bool → M (Unit {0})
generate_preview_in_background ev db entry converted v =
    if not converted && (ev.open_fails || not (has_file entry.id v.files))
    then finish_preview ev db entry (err Error.failure, v)
    else finish_preview ev db entry (generate_and_store_preview ev entry.id v)

abbrev pub on_vault : Slots → Result (Unit {0}) × Vault → Node
on_vault slots (r, v) = record { slots = slots; vault = v }

-- The goroutine, to its end. A preview's slot is a sync one and always held.
unfoldable pub run_job : Events → Database → Job → Node → Node
run_job ev db no_job n = n
run_job ev db (preview_job entry converted) n =
    on_vault (release_sync_slot n.slots).0
      (generate_preview_in_background ev db entry converted n.vault)
run_job ev db (finalize_job entry plan) n =
    on_vault (if needs_slot plan then (release_async_slot n.slots).0 else n.slots)
      (finalize_entry_file ev db entry plan n.vault)

-- An answer's goroutine has run.
abbrev pub finish_job : Events → Database → Answer → Node
finish_job ev db (err e, n) = n
finish_job ev db (ok (entry, job), n) = run_job ev db job n

-- One upload, with the goroutine that it leaves, run to its end.
unfoldable pub upload :
    Converter → Events → Database → EntryRequest → Bool → Text → Text → Node → Node
upload mc ev db req on_disk mime original_name n =
    finish_job ev db (process_incoming_entry mc ev db req on_disk mime original_name n)
