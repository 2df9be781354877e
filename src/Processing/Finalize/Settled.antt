-- ===== src/Processing/Finalize/Settled.antt =====
-- A background worker's pipeline brings its entry to an end, and touches nothing else.
use media_hub_oss.Prelude.{ℕ, refl, Bool, true, false, not, if◌then◌else◌, Result, ok, Error, ◌&&◌}
use media_hub_oss.Repository.Types.{ready, Entry, Database}
use media_hub_oss.Repository.Entries.{update_entry}
use media_hub_oss.Repository.Effects.{update_entry-Becomes}
use media_hub_oss.Deletion.{Vault}
use media_hub_oss.Processing.Plan.{ProcessingPlan}
use media_hub_oss.Processing.Pipeline.{
  Events, done, fail_if, follow, after_error, put_store, write_step, fail_processed_entry,
  generate_and_store_preview, with_probed,
}
use media_hub_oss.Processing.Pipeline.Posts.{
  Post, returned, raised, Post-follow, Post-after_error, Post-fail_if, Post-given, Post-store,
  Post-if,
}
use media_hub_oss.Processing.Pipeline.Keeping.{Pending, Written, Written-write, preview-Pending}
use media_hub_oss.Processing.Pipeline.Settling.{
  CallsWork, Settles, failed_processing, Written-Settles,
}
use media_hub_oss.Processing.Finalize.{
  convert_file, preview_file, finished_entry, finalize_entry_file, size_or,
}

module _ (v : Vault) (ev : Events) (db : Database) where
  abbrev pub Settled : ℕ → Vault → Type 0
  Settled i w = Settles (CallsWork ev db) v i w

  convert_file-Post :
      (plan : ProcessingPlan) (i : ℕ) (w : Vault)
      → Pending v i w
      → Post (Pending v i) (λ size u. Pending v i u) (convert_file ev plan w)
  unfolding convert_file
  convert_file-Post plan i w p =
      Post-if (plan.wants_conversion && plan.needs_conversion) _ _ w
        (λ b.
          Post-follow (fail_if (not plan.can_convert) Error.failure w) _
            (Post-fail_if (not plan.can_convert) Error.failure w p λ c. p)
            λ t u q.
              Post-follow (fail_if ev.temp_fails Error.failure u) _
                (Post-fail_if ev.temp_fails Error.failure u q λ c. q)
                λ t1 u1 q1. Post-given ev.converted Error.failure u1 q1 λ size. q1)
        (λ b. returned p)

  preview_file-Pending :
      (plan : ProcessingPlan) (entry : Entry) (w : Vault)
      → Pending v entry.id w
      → Post (Settled entry.id) (λ size u. Pending v entry.id u) (preview_file ev plan entry w)
  unfolding preview_file
  preview_file-Pending plan entry w p =
      split (generate_and_store_preview ev entry.id w) (preview-Pending v ev entry.id w p)
        (plan.wants_preview && plan.can_gen_preview)
    where
      split :
          (g : Result ℕ × Vault)
          → Pending v entry.id g.1
          → (b : Bool)
          → let (r, u) = g in
            Post
              (Settled entry.id)
              (λ size u. Pending v entry.id u)
              (if b then (ok (size_or r entry.preview_size), u) else (ok entry.preview_size, w))
      split (r, u) q true = returned q
      split (r, u) q false = returned p

  -- The update that makes the entry ready, and what follows if it fails.
  finish-Post :
      (plan : ProcessingPlan) (size : ℕ) (entry : Entry) (w : Vault)
      → Written v entry.id w
      → Post
          (Settled entry.id)
          (λ (t : Unit {0}) u. Settled entry.id u)
          (after_error
            (follow
              (put_store w (update_entry ev.finish db.id (finished_entry plan size entry) w.store))
              (λ e. done tt))
            (λ e. fail_processed_entry ev db (finished_entry plan size entry)))
  finish-Post plan size entry w p =
      Post-after_error _ _
        (Post-follow
          (put_store w (update_entry ev.finish db.id (finished_entry plan size entry) w.store)) _
          (Post-store w _
            (update_entry-Becomes ev.finish db.id (finished_entry plan size entry) w.store)
            p.pending λ a s b. Written-Settles v ev db entry.id ready w s refl p b.1)
          λ a u q. returned q)
        λ e u q. failed_processing v ev db (finished_entry plan size entry) u q

  pub write_step-Post :
      (fails : Bool) (i size : ℕ) (w : Vault)
      → Pending v i w
      → Post (Pending v i) (λ n u. Written v i u) (write_step fails i size w)
  unfolding write_step
  write_step-Post true i size w p = raised p
  write_step-Post false i size w p = returned (Written-write v i size w p)

  -- The worker's pipeline leaves its entry settled, whether it returns an error or not.
  pub finalize_entry_file-Settles :
      (entry : Entry) (plan : ProcessingPlan) (w : Vault)
      → Pending v entry.id w
      → Post
          (Settled entry.id)
          (λ (t : Unit {0}) u. Settled entry.id u)
          (finalize_entry_file ev db entry plan w)
  unfolding finalize_entry_file
  finalize_entry_file-Settles entry plan w p =
      Post-follow (after_error (convert_file ev plan w) (λ e. fail_processed_entry ev db entry)) _
        (Post-after_error _ _ (convert_file-Post plan entry.id w p)
          λ e u q. failed_processing v ev db entry u q)
        λ size u q.
          Post-follow (preview_file ev plan (with_probed ev db entry) u) _
            (preview_file-Pending plan (with_probed ev db entry) u q)
            λ preview_size u1 q1.
              Post-follow _ _
                (Post-after_error _ _
                  (Post-follow (fail_if ev.open_fails Error.failure u1) _
                    (Post-fail_if ev.open_fails Error.failure u1 q1 λ c. q1)
                    λ t u2 q2. write_step-Post ev.write_fails entry.id size u2 q2)
                  λ e u2 q2.
                    failed_processing v ev db
                      (record (with_probed ev db entry) { preview_size = preview_size }) u2 q2)
                λ written u2 q2.
                  finish-Post plan written
                    (record (with_probed ev db entry) { preview_size = preview_size }) u2 q2
