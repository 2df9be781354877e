-- ===== src/Processing/Incoming/Uploads.antt =====
-- What a whole upload does to a database and its files: the answer, and the goroutine after it.
use media_hub_oss.Prelude.{
  ℕ, ◌≡◌, refl, Bool, true, false, not, ◌&&◌, ◌||◌, if◌then◌else◌, none, some, Result, ok, err,
  Error,
}
use media_hub_oss.Prelude.Text.{Text}
use media_hub_oss.Repository.Types.{ready, Row, Entry, Database}
use media_hub_oss.Repository.Effects.{status_in}
use media_hub_oss.Storage.{has_file, file_size}
use media_hub_oss.Deletion.{Vault}
use media_hub_oss.Processing.Slots.{Slots, try_reserve_sync_slot, try_reserve_async_slot}
use media_hub_oss.Processing.Plan.{Converter, ProcessingPlan, needs_slot, determine_conversion_plan}
use media_hub_oss.Processing.Pipeline.{EntryRequest, Events, generate_and_store_preview}
use media_hub_oss.Processing.Pipeline.Posts.{Post, returned, raised}
use media_hub_oss.Processing.Pipeline.Keeping.{is_processing, row_of, Written}
use media_hub_oss.Processing.Pipeline.Settling.{
  CallsWork, Changed, fresh, preview-Written, finished-Settles,
}
use media_hub_oss.Processing.Finalize.{finalize_entry_file}
use media_hub_oss.Processing.Finalize.Settled.{finalize_entry_file-Settles}
use media_hub_oss.Processing.Incoming.{
  Job, no_job, Node, Answer, leave_sync, leave_async, keep_slots, store_synchronously,
  hand_to_worker, process_synchronously, process_asynchronously, process_incoming_entry, or_queue,
  after_queueing, finish_preview, generate_preview_in_background, preview_size_of, run_job,
  finish_job, upload,
}
use media_hub_oss.Processing.Incoming.Careful.{
  IsServed, IsCareful, IsCareful-refl, IsCareful-trans, Changed-IsCareful,
}
use media_hub_oss.Processing.Incoming.Served.{
  Settled, Harmless, Handed, finished, previewing, converting, Left, store_synchronously-Post,
  hand_to_worker-Post,
}
use media_hub_oss.Processing.Incoming.Queued.{queue_incoming_file-Post}

module _ (v : Vault) (ev : Events) (db : Database) where
  finish_preview-Settles :
      (entry : Entry) (a : Result ℕ × Vault)
      → Written v entry.id a.1
      → Settled v ev db entry.id (finish_preview ev db entry a).1
  unfolding finish_preview
  finish_preview-Settles entry (r, w) p =
      finished-Settles v ev db (record entry { status = ready; preview_size = preview_size_of r }) w
        refl p

  preview-Settles :
      (entry : Entry) (converted : Bool) (w : Vault)
      → Written v entry.id w
      → Settled v ev db entry.id (generate_preview_in_background ev db entry converted w).1
  unfolding generate_preview_in_background
  preview-Settles entry converted w p =
      split (not converted && (ev.open_fails || not (has_file entry.id w.files)))
    where
      split :
          (b : Bool)
          → Settled v ev db entry.id
              (if b
                then finish_preview ev db entry (err Error.failure, w)
                else finish_preview ev db entry (generate_and_store_preview ev entry.id w)).1
      split true = finish_preview-Settles entry (err Error.failure, w) p
      split false =
          finish_preview-Settles entry (generate_and_store_preview ev entry.id w)
            (preview-Written v ev db entry.id w p)

  -- The end of the goroutine.
  ended :
      (r : Result (Unit {0}) × Vault) (i : ℕ)
      → Post (Settled v ev db i) (λ (t : Unit {0}) w. Settled v ev db i w) r
      → Settled v ev db i r.1
  ended _ i (returned s) = s
  ended _ i (raised s) = s

  Handed-Settles :
      (slots : Slots) (e : Entry) (j : Job) (w : Vault)
      → Handed v ev db e j w
      → Settled v ev db e.id (run_job ev db j (record { slots = slots; vault = w })).vault
  unfolding run_job
  Handed-Settles slots e _ w (finished s) = s
  Handed-Settles slots e _ w (previewing p) = preview-Settles e _ w p
  Handed-Settles slots e _ w (converting p) =
      ended (finalize_entry_file ev db e _ w) e.id (finalize_entry_file-Settles v ev db e _ w p)

  -- Whatever an answer does to the slots, its goroutine ends well.
  abbrev Safe : Answer → Type 0
  Safe a = Changed (CallsWork ev db) v (finish_job ev db a).vault

  -- The slots that each branch hands on are in Processing.Incoming.SlotUse.
  ran :
      (slots : Slots) (r : Entry × Job) (w : Vault)
      → Left v ev db r w
      → Safe (ok r, record { slots = slots; vault = w })
  ran slots (e, j) w (absent, h) = fresh e.id absent (Handed-Settles slots e j w h)

  module _ (held : Slots) where
    leave_sync-Safe :
        (r : Result (Entry × Job) × Vault)
        → Post (Harmless v ev db) (Left v ev db) r
        → Safe (leave_sync held r)
    leave_sync-Safe (ok (e, j), w) (returned p) = ran _ (e, j) w p
    leave_sync-Safe _ (raised h) = h

    leave_async-Safe :
        (r : Result (Entry × Job) × Vault)
        → Post (Harmless v ev db) (Left v ev db) r
        → Safe (leave_async held r)
    leave_async-Safe _ (returned p) = ran held _ _ p
    leave_async-Safe _ (raised h) = h

    keep_slots-Safe :
        (r : Result (Entry × Job) × Vault)
        → Post (Harmless v ev db) (Left v ev db) r
        → Safe (keep_slots held r)
    keep_slots-Safe _ (returned p) = ran held _ _ p
    keep_slots-Safe _ (raised h) = h

    after_queueing-Safe :
        (r : Result Entry × Vault)
        → Post (Harmless v ev db) (λ e w. (row_of e.id v ≡ none) × Settled v ev db e.id w) r
        → Safe (after_queueing held r)
    after_queueing-Safe (ok e, w) (returned (absent, s)) = ran _ (e, no_job) w (absent, finished s)
    after_queueing-Safe _ (raised h) = h

module _ (ev : Events) (db : Database) where
  -- An answer and its goroutine, after a node.
  abbrev Ends : Node → Answer → Type 0
  Ends n a = IsCareful (CallsWork ev db) n.vault (finish_job ev db a).vault

  unchanged : (n : Node) (e : Error) → Ends n (err e, n)
  unchanged n e = IsCareful-refl n.vault

  branch : (n : Node) (b : Bool) (x y : Answer) → Ends n x → Ends n y → Ends n (if b then x else y)
  branch n true x y h k = h
  branch n false x y h k = k

  module _ (req : EntryRequest) (plan : ProcessingPlan) where
    process_synchronously-Ends : (n : Node) → Ends n (process_synchronously ev db req plan n)
    unfolding process_synchronously
    process_synchronously-Ends n =
        branch n (plan.needs_conversion && not plan.can_convert) _ _ (unchanged n Error.failure) (
          branch n (needs_slot plan) _ _
            (branch n (try_reserve_sync_slot n.slots).1 _ _
              (Changed-IsCareful (leave_sync-Safe n.vault ev db _ _ stored))
              (unchanged n Error.resource_exhausted))
            (Changed-IsCareful (keep_slots-Safe n.vault ev db _ _ stored)))
      where
        stored :
            Post
              (Harmless n.vault ev db)
              (Left n.vault ev db)
              (store_synchronously ev db req plan n.vault)
        stored = store_synchronously-Post n.vault ev db req plan

    process_asynchronously-Ends : (n : Node) → Ends n (process_asynchronously ev db req plan n)
    unfolding process_asynchronously
    process_asynchronously-Ends n =
        branch n (plan.needs_conversion && not plan.can_convert) _ _ (unchanged n Error.failure) (
          branch n (needs_slot plan) _ _
            (branch n (try_reserve_async_slot n.slots).1 _ _
              (Changed-IsCareful (leave_async-Safe n.vault ev db _ _ handed))
              (unchanged n Error.resource_exhausted))
            (Changed-IsCareful (keep_slots-Safe n.vault ev db _ _ handed)))
      where
        handed :
            Post
              (Harmless n.vault ev db)
              (Left n.vault ev db)
              (hand_to_worker ev db req plan n.vault)
        handed = hand_to_worker-Post n.vault ev db req plan

    or_queue-Ends : (n : Node) (a : Answer) → Ends n a → Ends n (or_queue ev db req plan a)
    or_queue-Ends n (ok r, m) h = h
    or_queue-Ends n (err Error.resource_exhausted, m) h = IsCareful-trans h (
        Changed-IsCareful (
          after_queueing-Safe m.vault ev db m.slots _
            (queue_incoming_file-Post m.vault ev db req plan)))
    or_queue-Ends n (err Error.validation, m) h = h
    or_queue-Ends n (err Error.not_found, m) h = h
    or_queue-Ends n (err Error.unavailable, m) h = h
    or_queue-Ends n (err Error.conflict, m) h = h
    or_queue-Ends n (err Error.bad_mime_type, m) h = h
    or_queue-Ends n (err Error.lock_not_acquired, m) h = h
    or_queue-Ends n (err Error.permission_denied, m) h = h
    or_queue-Ends n (err Error.user_exists, m) h = h
    or_queue-Ends n (err Error.failure, m) h = h

  pub process_incoming_entry-Ends :
      (mc : Converter) (req : EntryRequest) (on_disk : Bool) (mime original_name : Text) (n : Node)
      → Ends n (process_incoming_entry mc ev db req on_disk mime original_name n)
  unfolding process_incoming_entry
  process_incoming_entry-Ends mc req on_disk mime original_name n =
      split (determine_conversion_plan mc db mime original_name req.file_name) on_disk
    where
      split :
          (r : Result ProcessingPlan) (b : Bool)
          → Ends n (elim r [
            | err e ↦ (err e, n)
            | ok plan ↦ or_queue ev db req plan (
                if b
                then process_asynchronously ev db req plan n
                else process_synchronously ev db req plan n)
          ])
      split (err e) b = unchanged n e
      split (ok plan) true =
          or_queue-Ends req plan n (process_asynchronously ev db req plan n)
            (process_asynchronously-Ends req plan n)
      split (ok plan) false =
          or_queue-Ends req plan n (process_synchronously ev db req plan n)
            (process_synchronously-Ends req plan n)

-- An upload, through the answer and to the end of its goroutine, leaves the rows and the stored
-- files of every entry that existed before as they were, whatever fails on the way.
pub upload_preserves :
    (mc : Converter) (ev : Events) (db : Database) (req : EntryRequest) (on_disk : Bool)
    (mime original_name : Text) (n : Node) (j : ℕ) (r : Row)
    → row_of j n.vault ≡ some r
    → (row_of j (upload mc ev db req on_disk mime original_name n).vault ≡ some r)
      × (file_size j (upload mc ev db req on_disk mime original_name n).vault.files
          ≡ file_size j n.vault.files)
unfolding upload
upload_preserves mc ev db req on_disk mime original_name n j r e =
    let ends = process_incoming_entry-Ends ev db mc req on_disk mime original_name n in
    (ends.rows j r e, ends.files j r e)

-- If every entry that is ready or queued has its file in storage, then that is so after an upload,
-- through the answer and to the end of its goroutine, whatever fails on the way.
pub upload-IsServed :
    (mc : Converter) (ev : Events) (db : Database) (req : EntryRequest) (on_disk : Bool)
    (mime original_name : Text) (n : Node)
    → IsServed n.vault
    → IsServed (upload mc ev db req on_disk mime original_name n).vault
unfolding upload
upload-IsServed mc ev db req on_disk mime original_name n =
    (process_incoming_entry-Ends ev db mc req on_disk mime original_name n).served

-- Where the calls that finish, fail and discard an entry work, an upload leaves no entry as
-- processing once its goroutine has ended: an entry that is processing was so before.
pub upload_settles :
    (mc : Converter) (ev : Events) (db : Database) (req : EntryRequest) (on_disk : Bool)
    (mime original_name : Text) (n : Node) (j : ℕ)
    → CallsWork ev db
    → status_in is_processing (row_of j (upload mc ev db req on_disk mime original_name n).vault)
      ≡ true
    → status_in is_processing (row_of j n.vault) ≡ true
unfolding upload
upload_settles mc ev db req on_disk mime original_name n j fine =
    (process_incoming_entry-Ends ev db mc req on_disk mime original_name n).settled fine j
