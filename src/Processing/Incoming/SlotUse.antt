-- ===== src/Processing/Incoming/SlotUse.antt =====
-- The slots of an upload: what its answer holds, its goroutine gives back.
use media_hub_oss.Prelude.{
  ◌≡◌, refl, not, if◌then◌else◌, ◌∙◌, Bool, true, false, ◌&&◌, Result, ok, err, Error, arith,
}
use media_hub_oss.Prelude.Text.{Text}
use media_hub_oss.Repository.Types.{Entry, Database}
use media_hub_oss.Deletion.{Vault}
use media_hub_oss.Processing.Slots.{
  Slots, try_reserve_sync_slot, release_sync_slot, try_reserve_async_slot, release_async_slot,
  unreserve_async_slot, note_queued_entry,
}
use media_hub_oss.Processing.Plan.{Converter, ProcessingPlan, needs_slot, determine_conversion_plan}
use media_hub_oss.Processing.Pipeline.{
  EntryRequest, Events, create_preliminary_entry, store_processed_stream, with_probed,
}
use media_hub_oss.Processing.Pipeline.Posts.{
  Post, returned, raised, Post-follow, Post-guard, Post-if,
}
use media_hub_oss.Processing.Incoming.{
  Job, no_job, preview_job, finalize_job, Node, Answer, leave_sync, leave_async, keep_slots,
  store_synchronously, hand_to_worker, convert_upload, rewind_upload, mark_entry_ready,
  hand_to_preview, queue_incoming_file, process_synchronously, process_asynchronously,
  process_incoming_entry, or_queue, after_queueing, run_job, finish_job, upload,
}

-- Any step has the postcondition that says nothing.
anything : {A : Type 0} (m : Result A × Vault) → Post (λ v. Unit {0}) (λ a v. Unit {0}) m
anything (ok a, v) = returned tt
anything (err e, v) = raised tt

-- A synchronous upload leaves a preview only under a plan that takes a slot.
data SyncJob (plan : ProcessingPlan) : Job → Type 0 where
  stored : SyncJob plan no_job
  previewed : (e : Entry) (b : Bool) → needs_slot plan ≡ true → SyncJob plan (preview_job e b)

data AsyncJob (plan : ProcessingPlan) : Job → Type 0 where
  handed : (e : Entry) → AsyncJob plan (finalize_job e plan)

-- The numbers of slots in use, and their limits, are those of before.
pub record SameUse (s t : Slots) : Type 0 where
  pub async : t.active_async ≡ s.active_async
  pub total : t.active_total ≡ s.active_total
  pub async_limit : t.n_ffmpeg_async ≡ s.n_ffmpeg_async
  pub total_limit : t.n_ffmpeg_total ≡ s.n_ffmpeg_total

module _ (ev : Events) (db : Database) (req : EntryRequest) (plan : ProcessingPlan)
    (v : Vault) where
  store_synchronously-SyncJob :
      Post (λ w. Unit {0}) (λ a w. SyncJob plan a.1) (store_synchronously ev db req plan v)
  unfolding store_synchronously needs_slot
  store_synchronously-SyncJob =
      Post-follow (create_preliminary_entry ev db req plan true v) _ (anything _) λ entry w p.
        Post-follow (convert_upload ev db entry plan w) _ (anything _) λ size w1 p1.
          Post-follow (rewind_upload ev db entry plan w1) _ (anything _) λ t w2 p2.
            Post-follow (store_processed_stream ev db (with_probed ev db entry) size w2) _
              (anything _)
              λ written w3 p3.
                Post-if (plan.wants_preview && plan.can_gen_preview) _ _ w3
                  (λ b.
                    Post-follow
                      (hand_to_preview ev db (record (with_probed ev db entry) { size = written })
                        w3)
                      _ (anything _)
                      λ e u q. returned (previewed e plan.needs_conversion (ground (arith, b))))
                  (λ b.
                    Post-follow
                      (mark_entry_ready ev db (record (with_probed ev db entry) { size = written })
                        w3)
                      _ (anything _) λ e u q. returned stored)

  hand_to_worker-AsyncJob :
      Post (λ w. Unit {0}) (λ a w. AsyncJob plan a.1) (hand_to_worker ev db req plan v)
  unfolding hand_to_worker
  hand_to_worker-AsyncJob = Post-guard ev.temp_fails Error.failure v _ tt (
      Post-follow (create_preliminary_entry ev db req plan false v) _ (anything _)
        λ entry w p. returned (handed entry))

module _ (s : Slots) where
  SameUse-refl : SameUse s s
  SameUse-refl = record { async = refl; total = refl; async_limit = refl; total_limit = refl }

  sync_cycle :
      (try_reserve_sync_slot s).1 ≡ true
      → SameUse s (release_sync_slot (try_reserve_sync_slot s).0).0
  unfolding try_reserve_sync_slot release_sync_slot
  sync_cycle h = record {
    async = ground (arith, h);
    total = ground (arith, h);
    async_limit = ground (arith, h);
    total_limit = ground (arith, h);
  }

  async_cycle :
      (try_reserve_async_slot s).1 ≡ true
      → SameUse s (release_async_slot (try_reserve_async_slot s).0).0
  unfolding try_reserve_async_slot release_async_slot
  async_cycle h = record {
    async = ground (arith, h);
    total = ground (arith, h);
    async_limit = ground (arith, h);
    total_limit = ground (arith, h);
  }

  unreserve_cycle :
      (try_reserve_async_slot s).1 ≡ true
      → SameUse s (unreserve_async_slot (try_reserve_async_slot s).0)
  unfolding try_reserve_async_slot unreserve_async_slot
  unreserve_cycle h = record {
    async = ground (arith, h);
    total = ground (arith, h);
    async_limit = ground (arith, h);
    total_limit = ground (arith, h);
  }

  noted : SameUse s (note_queued_entry s).0
  unfolding note_queued_entry
  noted = record { async = refl; total = refl; async_limit = refl; total_limit = refl }

-- An answer and its goroutine use no slot for good.
module _ (ev : Events) (db : Database) where
  abbrev Returns : Slots → Answer → Type 0
  Returns s a = SameUse s (finish_job ev db a).slots

  module _ (s : Slots) (plan : ProcessingPlan) where
    leave_sync-Returns :
        (r : Result (Entry × Job) × Vault)
        → Post (λ w. Unit {0}) (λ a w. SyncJob plan a.1) r
        → (try_reserve_sync_slot s).1 ≡ true
        → Returns s (leave_sync (try_reserve_sync_slot s).0 r)
    unfolding run_job
    leave_sync-Returns (ok (e, _), w) (returned stored) h = sync_cycle s h
    leave_sync-Returns (ok (e, _), w) (returned (previewed _ _ _)) h = sync_cycle s h
    leave_sync-Returns _ (raised t) h = sync_cycle s h

    leave_async-Returns :
        (r : Result (Entry × Job) × Vault)
        → Post (λ w. Unit {0}) (λ a w. AsyncJob plan a.1) r
        → needs_slot plan ≡ true
        → (try_reserve_async_slot s).1 ≡ true
        → Returns s (leave_async (try_reserve_async_slot s).0 r)
    unfolding run_job
    leave_async-Returns (ok (e, _), w) (returned (handed _)) needed h = rw needed (async_cycle s h)
    leave_async-Returns _ (raised t) needed h = unreserve_cycle s h

    keep_sync-Returns :
        (r : Result (Entry × Job) × Vault)
        → Post (λ w. Unit {0}) (λ a w. SyncJob plan a.1) r
        → needs_slot plan ≡ false
        → Returns s (keep_slots s r)
    unfolding run_job
    keep_sync-Returns (ok (e, _), w) (returned stored) h = SameUse-refl s
    keep_sync-Returns (ok (e, _), w) (returned (previewed _ _ needed)) h = cc (needed, h)
    keep_sync-Returns _ (raised t) h = SameUse-refl s

    keep_async-Returns :
        (r : Result (Entry × Job) × Vault)
        → Post (λ w. Unit {0}) (λ a w. AsyncJob plan a.1) r
        → needs_slot plan ≡ false
        → Returns s (keep_slots s r)
    unfolding run_job
    keep_async-Returns (ok (e, _), w) (returned (handed _)) h = rw h (SameUse-refl s)
    keep_async-Returns _ (raised t) h = SameUse-refl s

  branch :
      (s : Slots) (b : Bool) (x y : Answer)
      → (b ≡ true → Returns s x)
      → (b ≡ false → Returns s y)
      → Returns s (if b then x else y)
  branch s true x y h k = h refl
  branch s false x y h k = k refl

  module _ (req : EntryRequest) (plan : ProcessingPlan) where
    process_synchronously-Returns :
        (n : Node) → Returns n.slots (process_synchronously ev db req plan n)
    unfolding process_synchronously
    process_synchronously-Returns n =
        branch n.slots (plan.needs_conversion && not plan.can_convert) _ _
          (λ _. SameUse-refl n.slots)
          λ _.
            branch n.slots (needs_slot plan) _ _
              (λ _.
                branch n.slots (try_reserve_sync_slot n.slots).1 _ _
                  (leave_sync-Returns n.slots plan _
                    (store_synchronously-SyncJob ev db req plan n.vault))
                  λ _. SameUse-refl n.slots)
              (keep_sync-Returns n.slots plan _
                (store_synchronously-SyncJob ev db req plan n.vault))

    process_asynchronously-Returns :
        (n : Node) → Returns n.slots (process_asynchronously ev db req plan n)
    unfolding process_asynchronously
    process_asynchronously-Returns n =
        branch n.slots (plan.needs_conversion && not plan.can_convert) _ _
          (λ _. SameUse-refl n.slots)
          λ _.
            branch n.slots (needs_slot plan) _ _
              (λ needed.
                branch n.slots (try_reserve_async_slot n.slots).1 _ _
                  (leave_async-Returns n.slots plan _
                    (hand_to_worker-AsyncJob ev db req plan n.vault) needed)
                  λ _. SameUse-refl n.slots)
              (keep_async-Returns n.slots plan _ (hand_to_worker-AsyncJob ev db req plan n.vault))

    after_queueing-Returns :
        (s t : Slots) (r : Result Entry × Vault) → SameUse s t → Returns s (after_queueing t r)
    unfolding run_job
    after_queueing-Returns s t (ok e, v) h = record {
      async = (noted t).async ∙ h.async;
      total = (noted t).total ∙ h.total;
      async_limit = (noted t).async_limit ∙ h.async_limit;
      total_limit = (noted t).total_limit ∙ h.total_limit;
    }
    after_queueing-Returns s t (err e, v) h = h

    or_queue-Returns :
        (s : Slots) (a : Answer) → Returns s a → Returns s (or_queue ev db req plan a)
    or_queue-Returns s (ok r, m) h = h
    or_queue-Returns s (err Error.resource_exhausted, m) h =
        after_queueing-Returns s m.slots (queue_incoming_file ev db req plan m.vault) h
    or_queue-Returns s (err Error.validation, m) h = h
    or_queue-Returns s (err Error.not_found, m) h = h
    or_queue-Returns s (err Error.unavailable, m) h = h
    or_queue-Returns s (err Error.conflict, m) h = h
    or_queue-Returns s (err Error.bad_mime_type, m) h = h
    or_queue-Returns s (err Error.lock_not_acquired, m) h = h
    or_queue-Returns s (err Error.permission_denied, m) h = h
    or_queue-Returns s (err Error.user_exists, m) h = h
    or_queue-Returns s (err Error.failure, m) h = h

-- An upload, through the answer and to the end of its goroutine, leaves the numbers of conversion
-- slots in use and their limits as they were, on every branch and whatever fails.
pub upload-SameUse :
    (mc : Converter) (ev : Events) (db : Database) (req : EntryRequest) (on_disk : Bool)
    (mime original_name : Text) (n : Node)
    → SameUse n.slots (upload mc ev db req on_disk mime original_name n).slots
unfolding upload process_incoming_entry
upload-SameUse mc ev db req on_disk mime original_name n =
    split (determine_conversion_plan mc db mime original_name req.file_name) on_disk
  where
    split :
        (r : Result ProcessingPlan) (b : Bool)
        → SameUse n.slots
            (finish_job ev db (elim r [
              | err e ↦ (err e, n)
              | ok plan ↦ or_queue ev db req plan (
                  if b
                  then process_asynchronously ev db req plan n
                  else process_synchronously ev db req plan n)
            ])).slots
    split (err e) b = SameUse-refl n.slots
    split (ok plan) true =
        or_queue-Returns ev db req plan n.slots (process_asynchronously ev db req plan n)
          (process_asynchronously-Returns ev db req plan n)
    split (ok plan) false =
        or_queue-Returns ev db req plan n.slots (process_synchronously ev db req plan n)
          (process_synchronously-Returns ev db req plan n)
