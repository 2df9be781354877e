-- ===== src/Processing/Incoming/Served.antt =====
-- An upload and its goroutine: a new entry at most, settled, whatever fails on the way.
use mathlib.Core.Path.{subst}
use media_hub_oss.Prelude.{ℕ, ◌≡◌, refl, sym, Bool, true, false, ◌&&◌, none, Error}
use media_hub_oss.Repository.Types.{ready, processing, Entry, Database}
use media_hub_oss.Repository.Effects.{update_entry-Becomes}
use media_hub_oss.Deletion.{Vault}
use media_hub_oss.Processing.Plan.{ProcessingPlan}
use media_hub_oss.Processing.Pipeline.{
  EntryRequest, Events, done, fail_if, follow, create_preliminary_entry, fail_upload_entry,
  store_processed_stream, with_probed,
}
use media_hub_oss.Processing.Pipeline.Posts.{
  Post, returned, Post-follow, Post-after_error, Post-fail_if, Post-guard, Post-given, Post-store,
  Post-if, Post-weaken,
}
use media_hub_oss.Processing.Pipeline.Keeping.{
  row_of, Pending, Written, create_preliminary_entry-Post,
}
use media_hub_oss.Processing.Pipeline.Settling.{
  CallsWork, Settles, Changed, same, fresh, failed_upload, Written-Settles, Written-kept,
}
use media_hub_oss.Processing.Finalize.Settled.{write_step-Post}
use media_hub_oss.Processing.Incoming.{
  Job, no_job, preview_job, finalize_job, convert_upload, rewind_upload, mark_entry_ready,
  hand_to_preview, store_synchronously, hand_to_worker,
}

module _ (v : Vault) (ev : Events) (db : Database) where
  abbrev pub Settled : ℕ → Vault → Type 0
  Settled i w = Settles (CallsWork ev db) v i w

  abbrev pub Harmless : Vault → Type 0
  Harmless w = Changed (CallsWork ev db) v w

  -- What the answer and its goroutine say of the vault.
  pub data Handed : Entry → Job → Vault → Type 0 where
    finished : {e : Entry} {w : Vault} → Settled e.id w → Handed e no_job w
    previewing :
        {e : Entry} {b : Bool} {w : Vault} → Written v e.id w → Handed e (preview_job e b) w
    converting :
        {e : Entry} {p : ProcessingPlan} {w : Vault}
        → Pending v e.id w
        → Handed e (finalize_job e p) w

  abbrev pub Left : Entry × Job → Vault → Type 0
  Left a w = (row_of a.0.id v ≡ none) × Handed a.0 a.1 w

  pub created :
      (req : EntryRequest) (plan : ProcessingPlan) (use_result : Bool)
      → Post Harmless
          (λ e w. (row_of e.id v ≡ none) × Pending v e.id w)
          (create_preliminary_entry ev db req plan use_result v)
  created req plan use_result =
      Post-weaken _ (create_preliminary_entry-Post v ev db req plan use_result) λ w e. same e

  module _ (entry : Entry) (absent : row_of entry.id v ≡ none) where
    failed : (w : Vault) → Pending v entry.id w → Harmless (fail_upload_entry ev db entry w).1
    failed w p = fresh entry.id absent (failed_upload v ev db entry w p)

    convert_upload-Post :
        (plan : ProcessingPlan) (w : Vault)
        → Pending v entry.id w
        → Post Harmless (λ size u. Pending v entry.id u) (convert_upload ev db entry plan w)
    unfolding convert_upload
    convert_upload-Post plan w p =
        Post-if plan.needs_conversion _ _ w
          (λ b.
            Post-after_error _ _ (Post-given ev.converted Error.failure w p λ size. p)
              λ e u q. failed u q)
          (λ b. returned p)

    rewind_upload-Post :
        (plan : ProcessingPlan) (w : Vault)
        → Pending v entry.id w
        → Post Harmless
            (λ (t : Unit {0}) u. Pending v entry.id u)
            (rewind_upload ev db entry plan w)
    unfolding rewind_upload
    rewind_upload-Post plan w p =
        Post-after_error _ _ (Post-fail_if _ Error.failure w p λ c. p) λ e u q. failed u q

    store_processed_stream-Post :
        (size : ℕ) (w : Vault)
        → Pending v entry.id w
        → Post Harmless (λ n u. Written v entry.id u) (store_processed_stream ev db entry size w)
    unfolding store_processed_stream
    store_processed_stream-Post size w p =
        Post-after_error _ _
          (Post-follow (fail_if ev.store_seek_fails Error.failure w) _
            (Post-fail_if ev.store_seek_fails Error.failure w p λ c. p)
            λ t u q. write_step-Post v ev db ev.write_fails entry.id size u q)
          λ e u q. failed u q

    mark_entry_ready-Post :
        (w : Vault)
        → Written v entry.id w
        → Post Harmless
            (λ e u. (e.id ≡ entry.id) × Settled entry.id u)
            (mark_entry_ready ev db entry w)
    unfolding mark_entry_ready
    mark_entry_ready-Post w p =
        Post-after_error _ _
          (Post-store w _
            (update_entry-Becomes ev.finish db.id (record entry { status = ready }) w.store)
            p.pending λ a s b. (b.0, Written-Settles v ev db entry.id ready w s refl p b.1))
          λ e u q.
            fresh entry.id absent (failed_upload v ev db (record entry { status = ready }) u q)

    hand_to_preview-Post :
        (w : Vault)
        → Written v entry.id w
        → Post Harmless
            (λ e u. (e.id ≡ entry.id) × Written v entry.id u)
            (hand_to_preview ev db entry w)
    unfolding hand_to_preview
    hand_to_preview-Post w p =
        Post-after_error _ _
          (Post-store w _
            (update_entry-Becomes ev.finish db.id (record entry { status = processing }) w.store)
            p.pending λ a s b. (b.0, Written-kept v ev db entry.id processing w s refl p b.1))
          λ e u q.
            fresh entry.id absent (failed_upload v ev db (record entry { status = processing }) u q)

    -- What the last steps of a synchronous upload leave.
    marked :
        (w : Vault)
        → Written v entry.id w
        → Post Harmless Left (follow (mark_entry_ready ev db entry w) λ e. done (e, no_job))
    marked w p = Post-follow (mark_entry_ready ev db entry w) _ (mark_entry_ready-Post w p) λ e u q.
        returned (
          subst (λ i. row_of i v ≡ none) (sym q.0) absent,
          finished (subst (λ i. Settled i u) (sym q.0) q.1),
        )

    previewed :
        (converted : Bool) (w : Vault)
        → Written v entry.id w
        → Post Harmless Left
            (follow (hand_to_preview ev db entry w) λ e. done (e, preview_job e converted))
    previewed converted w p =
        Post-follow (hand_to_preview ev db entry w) _ (hand_to_preview-Post w p) λ e u q. returned (
          subst (λ i. row_of i v ≡ none) (sym q.0) absent,
          previewing (subst (λ i. Written v i u) (sym q.0) q.1),
        )

  pub store_synchronously-Post :
      (req : EntryRequest) (plan : ProcessingPlan)
      → Post Harmless Left (store_synchronously ev db req plan v)
  unfolding store_synchronously
  store_synchronously-Post req plan =
      Post-follow (create_preliminary_entry ev db req plan true v) _ (created req plan true)
        λ entry w p.
          Post-follow (convert_upload ev db entry plan w) _
            (convert_upload-Post entry p.0 plan w p.1)
            λ size w1 p1.
              Post-follow (rewind_upload ev db entry plan w1) _
                (rewind_upload-Post entry p.0 plan w1 p1)
                λ t w2 p2.
                  Post-follow (store_processed_stream ev db (with_probed ev db entry) size w2) _
                    (store_processed_stream-Post (with_probed ev db entry) p.0 size w2 p2)
                    λ written w3 p3.
                      Post-if (plan.wants_preview && plan.can_gen_preview) _ _ w3
                        (λ b.
                          previewed (record (with_probed ev db entry) { size = written }) p.0
                            plan.needs_conversion w3 p3)
                        (λ b.
                          marked (record (with_probed ev db entry) { size = written }) p.0 w3 p3)

  pub hand_to_worker-Post :
      (req : EntryRequest) (plan : ProcessingPlan)
      → Post Harmless Left (hand_to_worker ev db req plan v)
  unfolding hand_to_worker
  hand_to_worker-Post req plan = Post-guard ev.temp_fails Error.failure v _ (same refl) (
      Post-follow (create_preliminary_entry ev db req plan false v) _ (created req plan false)
        λ entry w p. returned (p.0, converting p.1))
