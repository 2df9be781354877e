-- ===== src/Processing/Pipeline/Settling.antt =====
-- The end of an upload: one new entry at most, which is not left half done.
use media_hub_oss.Prelude.{ℕ, ◌≡◌, ◌∙◌, arith, true, false, none, some, Result, ok, err}
use media_hub_oss.Prelude.Answers.{Answers, answer, refusal}
use media_hub_oss.Repository.Types.{EntryStatus, Row, Store, Entry, Database}
use media_hub_oss.Repository.Entries.{update_entry}
use media_hub_oss.Repository.Queue.{Works, is_ok}
use media_hub_oss.Repository.Effects.{status_in, Becomes, update_entry-Becomes, update_entry_works}
use media_hub_oss.Storage.{has_file}
use media_hub_oss.Deletion.{Vault}
use media_hub_oss.Processing.Pipeline.{
  Events, put_store, fail_upload_entry, fail_processed_entry, generate_and_store_preview,
  remove_preview_step,
}
use media_hub_oss.Processing.Pipeline.Keeping.{
  is_served, is_processing, row_of, Touched, Pending, Written, Ended, Touched-store, failed-Ended,
  fail_upload_entry-Ended, fail_processed_entry-Ended, preview-Pending,
}

-- The calls that bring an entry to its last status work.
pub record CallsWork (ev : Events) (db : Database) : Type 0 where
  pub finish : Works ev.finish db.id
  pub fail : Works ev.fail db.id
  pub discard : Works ev.discard db.id

pub record Settles (Fine : Type 0) (v : Vault) (i : ℕ) (w : Vault) : Type 0 where
  pub touched : Touched i v w
  pub stored : status_in is_served (row_of i w) ≡ true → has_file i w.files ≡ true
  pub settled : Fine → status_in is_processing (row_of i w) ≡ false

pub data Changed (Fine : Type 0) (v : Vault) : Vault → Type 0 where
  same : {w : Vault} → w ≡ v → Changed Fine v w
  fresh : {w : Vault} (i : ℕ) → row_of i v ≡ none → Settles Fine v i w → Changed Fine v w

module _ (v : Vault) (ev : Events) (db : Database) where
  pub Ended-Settles :
      (Calls : Type 0) (i : ℕ) (w : Vault)
      → (CallsWork ev db → Calls)
      → Ended v Calls i w
      → Settles (CallsWork ev db) v i w
  Ended-Settles Calls i w f e = record {
    touched = e.pending.touched;
    stored = λ h. cc (e.pending.unserved, h);
    settled = λ fine. e.settled (f fine);
  }

  pub failed_upload :
      (entry : Entry) (w : Vault)
      → Pending v entry.id w
      → Settles (CallsWork ev db) v entry.id (fail_upload_entry ev db entry w).1
  failed_upload entry w p =
      Ended-Settles (Works ev.fail db.id) entry.id _ (λ c. c.fail)
        (fail_upload_entry-Ended v ev db entry w p)

  pub failed_processing :
      (entry : Entry) (w : Vault)
      → Pending v entry.id w
      → Settles (CallsWork ev db) v entry.id (fail_processed_entry ev db entry w).1
  failed_processing entry w p =
      Ended-Settles (Works ev.fail db.id) entry.id _ (λ c. c.fail)
        (fail_processed_entry-Ended v ev db entry w p)

  pub Written-Settles :
      (i : ℕ) (st : EntryStatus) (w : Vault) (s : Store)
      → is_processing st ≡ false
      → Written v i w
      → Becomes i st w.store s
      → Settles (CallsWork ev db) v i (record w { store = s })
  Written-Settles i st w s h p b = record {
    touched = Touched-store v i w s p.pending.touched b.1;
    stored = λ k. p.stored;
    settled = λ fine. b.0 is_processing ∙ h;
  }

  pub Written-kept :
      (i : ℕ) (st : EntryStatus) (w : Vault) (s : Store)
      → is_served st ≡ false
      → Written v i w
      → Becomes i st w.store s
      → Written v i (record w { store = s })
  Written-kept i st w s h p b = record {
    pending = record {
      touched = Touched-store v i w s p.pending.touched b.1;
      unserved = b.0 is_served ∙ h;
    };
    stored = p.stored;
  }

  preview-files : (i : ℕ) (w : Vault) → (generate_and_store_preview ev i w).1.files ≡ w.files
  unfolding generate_and_store_preview remove_preview_step
  preview-files i w = ground (arith)

  pub preview-Written :
      (i : ℕ) (w : Vault) → Written v i w → Written v i (generate_and_store_preview ev i w).1
  preview-Written i w p = record {
    pending = preview-Pending v ev i w p.pending;
    stored = rw (preview-files i w) p.stored;
  }

  -- The last update of a written entry, whether it fails or not.
  pub finished-Settles :
      (entry : Entry) (w : Vault)
      → is_processing entry.status ≡ false
      → Written v entry.id w
      → Settles
          (CallsWork ev db)
          v
          entry.id
          (put_store w (update_entry ev.finish db.id entry w.store)).1
  finished-Settles entry w h p =
      split (update_entry ev.finish db.id entry w.store)
        (update_entry-Becomes ev.finish db.id entry w.store)
        (λ fine old. update_entry_works ev.finish db.id entry w.store old fine)
    where
      split :
          (r : Result (Entry × Store))
          → Answers
              (λ (a : Entry × Store).
                (a.0.id ≡ entry.id) × Becomes entry.id entry.status w.store a.1)
              r
          → (Works ev.finish db.id → (old : Row) → row_of entry.id w ≡ some old → is_ok r ≡ true)
          → Settles (CallsWork ev db) v entry.id (put_store w r).1
      split (ok (e, s)) (answer b) k = Written-Settles entry.id entry.status w s h p b.1
      split (err e) refusal k =
          Ended-Settles (Works ev.finish db.id) entry.id w (λ c. c.finish)
            (failed-Ended v (Works ev.finish db.id) entry.id w p.pending k)
