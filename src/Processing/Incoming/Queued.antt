-- ===== src/Processing/Incoming/Queued.antt =====
-- An upload that waits in the queue, and the clean-up after one that could not be queued.
use mathlib.Core.Path.{subst}
use media_hub_oss.Prelude.{
  ℕ, ◌≡◌, refl, sym, Bool, true, false, not, ◌&&◌, ◌==◌, leb, none, some, [], ◌∷◌, Result, ok, err,
  Error, arith,
}
use media_hub_oss.Prelude.Answers.{Answers, answer, refusal}
use media_hub_oss.Repository.Types.{
  EntryStatus, queued, error, Row, Store, Entry, Database, DeletedEntryMeta,
}
use media_hub_oss.Repository.Table.{find_row}
use media_hub_oss.Repository.Entries.{
  enqueue_entry, delete_entry, update_entries_status, count_entries_by_status,
}
use media_hub_oss.Repository.Effects.{
  Others, enqueue_entry-Becomes, delete_entry-Others, delete_entry_works, update_status-Others,
  status_in,
}
use media_hub_oss.Repository.Queue.{Works, is_ok}
use media_hub_oss.Deletion.{Vault}
use media_hub_oss.Processing.Plan.{ProcessingPlan}
use media_hub_oss.Processing.Pipeline.{
  EntryRequest, Events, M, fail_if, follow, after_error, ignore, repo, put_store, remove_step,
  create_preliminary_entry,
}
use media_hub_oss.Processing.Pipeline.Posts.{
  Post, raised, Post-follow, Post-after_error, Post-guard, Post-store,
}
use media_hub_oss.Processing.Pipeline.Keeping.{
  is_served, is_processing, row_of, Pending, Written, Ended, failed-Ended, Touched-store,
  Pending-remove,
}
use media_hub_oss.Processing.Pipeline.Settling.{same, fresh, Ended-Settles, Written-Settles}
use media_hub_oss.Processing.Finalize.Settled.{write_step-Post}
use media_hub_oss.Processing.Incoming.Served.{Settled, Harmless, created}
use media_hub_oss.Processing.Incoming.{discard_entry, withdraw, queue_has_room, queue_incoming_file}

module _ (v : Vault) (ev : Events) (db : Database) where
  -- The clean-up after an upload that could not be queued.
  module _ (entry : Entry) where
    marked_error :
        {u : Vault} (r : Result (Unit {0} × Store))
        → Answers
            (λ (a : Unit {0} × Store).
              ((p : EntryStatus → Bool)
                → p error ≡ false
                → status_in p (find_row entry.id a.1.rows) ≡ false)
              × Others entry.id u.store a.1)
            r
        → Ended v (Works ev.discard db.id) entry.id u
        → Settled v ev db entry.id (put_store u r).1
    marked_error {u} (ok (t, s)) (answer b) e = record {
      touched = Touched-store v entry.id u s e.pending.touched b.1;
      stored = λ h. cc (b.0 is_served refl, h);
      settled = λ fine. b.0 is_processing refl;
    }
    marked_error {u} (err x) refusal e =
        Ended-Settles v ev db (Works ev.discard db.id) entry.id u (λ c. c.discard) e

    withdraw-Settles :
        (w : Vault) → Pending v entry.id w → Settled v ev db entry.id (withdraw ev db entry w).1
    unfolding withdraw discard_entry
    withdraw-Settles w p =
        split (delete_entry ev.discard db.id entry.id u.store)
          (delete_entry-Others ev.discard db.id entry.id u.store)
          (λ fine old. delete_entry_works ev.discard db.id entry.id u.store old fine)
      where
        u : Vault
        u = (remove_step ev.broken entry.id w).1

        q : Pending v entry.id u
        q = Pending-remove v ev.broken entry.id w p

        split :
            (r : Result (DeletedEntryMeta × Store))
            → Answers
                (λ (a : DeletedEntryMeta × Store).
                  (row_of entry.id (record u { store = a.1 }) ≡ none) × Others entry.id u.store a.1)
                r
            → (Works ev.discard db.id → (old : Row) → row_of entry.id u ≡ some old → is_ok r ≡ true)
            → Settled v ev db entry.id
                (after_error (put_store u r) (λ e.
                  ignore (repo (update_entries_status ev.mark db.id (entry.id ∷ []) error)))).1
        split (ok (e, s)) (answer b) k = record {
          touched = Touched-store v entry.id u s q.touched b.1;
          stored = λ h. ground (arith, b.0, h);
          settled = λ fine. ground (arith, b.0);
        }
        split (err e) refusal k =
            marked_error (update_entries_status ev.mark db.id (entry.id ∷ []) error u.store)
              (update_status-Others ev.mark db.id entry.id error u.store)
              (failed-Ended v (Works ev.discard db.id) entry.id u q k)

    queued-Post :
        (absent : row_of entry.id v ≡ none) (w : Vault)
        → Written v entry.id w
        → Post
            (Harmless v ev db)
            (λ e u. (row_of e.id v ≡ none) × Settled v ev db e.id u)
            (after_error
              (put_store w (enqueue_entry ev.enqueue db.id entry db.n_max_queued w.store))
              (λ e. withdraw ev db entry))
    queued-Post absent w p =
        Post-after_error _ _
          (Post-store w _ (enqueue_entry-Becomes ev.enqueue db.id entry db.n_max_queued w.store)
            p.pending
            λ a s b.
              let (same_id, becomes) = b in
              (
                subst (λ i. row_of i v ≡ none) (sym same_id) absent,
                subst (λ i. Settled v ev db i (record w { store = s })) (sym same_id)
                    (Written-Settles v ev db entry.id queued w s refl p becomes),
              ))
          λ e u q. fresh entry.id absent (withdraw-Settles u q)

  room_guard :
      {A : Type 0} {R : A → Vault → Type 0} (next : Unit {0} → M A)
      → Post (Harmless v ev db) R (next tt v)
      → Post (Harmless v ev db) R (follow (queue_has_room ev db v) next)
  unfolding queue_has_room
  room_guard {R = R} next p = split (count_entries_by_status ev.count db.id queued v.store)
    where
      split :
          (r : Result ℕ)
          → Post (Harmless v ev db) R (
              follow
                (elim r [
                  | err e ↦ (err e, v)
                  | ok n ↦ fail_if (leb db.n_max_queued n) Error.unavailable v
                ])
                next)
      split (err e) = raised (same refl)
      split (ok n) = Post-guard (leb db.n_max_queued n) Error.unavailable v next (same refl) p

  pub queue_incoming_file-Post :
      (req : EntryRequest) (plan : ProcessingPlan)
      → Post
          (Harmless v ev db)
          (λ e w. (row_of e.id v ≡ none) × Settled v ev db e.id w)
          (queue_incoming_file ev db req plan v)
  unfolding queue_incoming_file
  queue_incoming_file-Post req plan =
      Post-guard (plan.needs_conversion && not plan.can_convert) Error.failure v _ (same refl) (
        Post-guard (db.n_max_queued == 0) Error.unavailable v _ (same refl) (
          room_guard _ (
            Post-guard ev.seek_fails Error.failure v _ (same refl) (
              Post-follow (create_preliminary_entry ev db req plan false v) _
                (created v ev db req plan false)
                λ entry w p.
                  Post-follow _ _
                    (Post-after_error _ _
                      (write_step-Post v ev db ev.write_fails entry.id ev.original w p.1)
                      λ e u q. fresh entry.id p.0 (withdraw-Settles entry u q))
                    λ size w1 p1. queued-Post (record entry { size = size }) p.0 w1 p1))))
