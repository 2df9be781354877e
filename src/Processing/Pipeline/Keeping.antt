-- ===== src/Processing/Pipeline/Keeping.antt =====
-- The steps of a pipeline touch one entry only: its row, its file and its preview. What they do to it.
use mathlib.Core.Path.{subst}
use media_hub_oss.Prelude.{
  ℕ, ◌≡◌, refl, ◌∙◌, arith, Bool, true, false, ◌||◌, Option, none, some, List, ◌==◌, if◌then◌else◌,
  Result, ok, err, Error, Option-cases, inl, inr,
}
use media_hub_oss.Prelude.Text.{Text}
use media_hub_oss.Prelude.Answers.{Answers, answer, refusal}
use media_hub_oss.Repository.Types.{
  EntryStatus, ready, processing, queued, error, status_eq, Row, Store, Env, Entry, Database, Value,
}
use media_hub_oss.Repository.Table.{find_row}
use media_hub_oss.Repository.Entries.{create_entry, update_entry}
use media_hub_oss.Repository.Queue.{Works, is_ok}
use media_hub_oss.Repository.Effects.{
  status_in, Others, Becomes, create_entry-Becomes, update_entry-Becomes, update_entry_works,
}
use media_hub_oss.Storage.{has_file, file_size, write_file}
use media_hub_oss.Storage.Removal.{file_size-write, remove_file-other}
use media_hub_oss.Deletion.{Vault}
use media_hub_oss.Processing.Plan.{ProcessingPlan}
use media_hub_oss.Processing.Pipeline.{
  EntryRequest, Events, relay, put_store, remove_step, remove_preview_step,
  create_preliminary_entry, preliminary_entry, default_media_fields, fail_upload_entry,
  fail_processed_entry, generate_and_store_preview,
}
use media_hub_oss.Processing.Pipeline.Posts.{Post, returned, raised, Post-follow, Post-store}

-- A ready or queued entry has its file in storage.
abbrev pub is_served : EntryStatus → Bool
is_served st = status_eq st ready || status_eq st queued

abbrev pub is_processing : EntryStatus → Bool
is_processing st = status_eq st processing

abbrev pub row_of : ℕ → Vault → Option Row
row_of i v = find_row i v.store.rows

pub record Touched (i : ℕ) (v w : Vault) : Type 0 where
  pub rows : Others i v.store w.store
  pub files : (j : ℕ) → (i == j) ≡ false → file_size j w.files ≡ file_size j v.files

pub record Pending (v : Vault) (i : ℕ) (w : Vault) : Type 0 where
  pub touched : Touched i v w
  pub unserved : status_in is_served (row_of i w) ≡ false

pub record Written (v : Vault) (i : ℕ) (w : Vault) : Type 0 where
  pub pending : Pending v i w
  pub stored : has_file i w.files ≡ true

-- The entry is not served, and not processing either if the calls on the way work.
pub record Ended (v : Vault) (Fine : Type 0) (i : ℕ) (w : Vault) : Type 0 where
  pub pending : Pending v i w
  pub settled : Fine → status_in is_processing (row_of i w) ≡ false

-- A row that was just created.
new_row_Pending :
    (w : Vault) (entry : Entry) (s : Store)
    → Becomes entry.id processing w.store s
    → Pending w entry.id (record w { store = s })
new_row_Pending w entry s b = record {
  touched = record { rows = b.1; files = λ j h. refl };
  unserved = b.0 is_served;
}

module _ (v : Vault) where
  pub Touched-store :
      (i : ℕ) (w : Vault) (s : Store)
      → Touched i v w
      → Others i w.store s
      → Touched i v (record w { store = s })
  Touched-store i w s t o = record { rows = λ j h. o j h ∙ t.rows j h; files = t.files }

  pub Written-write :
      (i size : ℕ) (w : Vault)
      → Pending v i w
      → Written v i (record w { files = write_file i size w.files })
  Written-write i size w p = record {
    pending = record {
      touched = record {
        rows = p.touched.rows;
        files = λ j h. ground (arith, h, file_size-write i j size w.files, p.touched.files j h);
      };
      unserved = p.unserved;
    };
    stored = ground (arith, file_size-write i i size w.files);
  }

  pub Pending-remove :
      (broken : ℕ → Bool) (i : ℕ) (w : Vault)
      → Pending v i w
      → Pending v i (remove_step broken i w).1
  unfolding remove_step
  Pending-remove broken i w p = record {
    touched = record {
      rows = p.touched.rows;
      files = λ j h. remove_file-other broken i j w.files h ∙ p.touched.files j h;
    };
    unserved = p.unserved;
  }

  pub Pending-remove_preview :
      (broken : ℕ → Bool) (i : ℕ) (w : Vault)
      → Pending v i w
      → Pending v i (remove_preview_step broken i w).1
  unfolding remove_preview_step
  Pending-remove_preview broken i w p = record {
    touched = record { rows = p.touched.rows; files = p.touched.files };
    unserved = p.unserved;
  }

  -- A status that is not served, written to the entry's row.
  Pending-store :
      (i : ℕ) (st : EntryStatus) (w : Vault) (s : Store)
      → is_served st ≡ false
      → Pending v i w
      → Becomes i st w.store s
      → Pending v i (record w { store = s })
  Pending-store i st w s h p b = record {
    touched = Touched-store i w s p.touched b.1;
    unserved = b.0 is_served ∙ h;
  }

  -- An operation that fails only where the row is missing or its calls do not work.
  pub failed-Ended :
      (Fine : Type 0) (i : ℕ) (w : Vault)
      → Pending v i w
      → (Fine → (old : Row) → row_of i w ≡ some old → false ≡ true)
      → Ended v Fine i w
  failed-Ended Fine i w p impossible = record { pending = p; settled = settled }
    where
      settled : Fine → status_in is_processing (row_of i w) ≡ false
      settled fine = elim (Option-cases (row_of i w)) [
        | inl e ↦ rw e refl
        | inr (old, e) ↦ cc (impossible fine old e)
      ]

  -- The end of a failure path.
  pub put_error-Ended :
      (env : Env) (db_id : Text) (entry : Entry) (w : Vault)
      → status_eq entry.status error ≡ true
      → Pending v entry.id w
      → Ended v (Works env db_id) entry.id (put_store w (update_entry env db_id entry w.store)).1
  put_error-Ended env db_id entry w h p =
      split (update_entry env db_id entry w.store) (update_entry-Becomes env db_id entry w.store)
        (λ fine old. update_entry_works env db_id entry w.store old fine)
    where
      split :
          (r : Result (Entry × Store))
          → Answers
              (λ (a : Entry × Store).
                (a.0.id ≡ entry.id) × Becomes entry.id entry.status w.store a.1)
              r
          → (Works env db_id → (old : Row) → row_of entry.id w ≡ some old → is_ok r ≡ true)
          → Ended v (Works env db_id) entry.id (put_store w r).1
      split (ok (e, s)) (answer b) k = record {
        pending = Pending-store entry.id entry.status w s (ground (arith, h)) p b.1;
        settled = λ fine. b.1.0 is_processing ∙ ground (arith, h);
      }
      split (err e) refusal k = failed-Ended (Works env db_id) entry.id w p k

  pub fail_upload_entry-Ended :
      (ev : Events) (db : Database) (entry : Entry) (w : Vault)
      → Pending v entry.id w
      → Ended v (Works ev.fail db.id) entry.id (fail_upload_entry ev db entry w).1
  unfolding fail_upload_entry
  fail_upload_entry-Ended ev db entry w p =
      put_error-Ended ev.fail db.id (record entry { size = 0; status = error }) _ refl
        (Pending-remove ev.broken entry.id w p)

  pub fail_processed_entry-Ended :
      (ev : Events) (db : Database) (entry : Entry) (w : Vault)
      → Pending v entry.id w
      → Ended v (Works ev.fail db.id) entry.id (fail_processed_entry ev db entry w).1
  unfolding fail_processed_entry
  fail_processed_entry-Ended ev db entry w p =
      put_error-Ended ev.fail db.id (record entry { preview_size = 0; status = error }) _ refl
        (Pending-remove_preview ev.preview_broken entry.id w p)

  pub preview-Pending :
      (ev : Events) (i : ℕ) (w : Vault)
      → Pending v i w
      → Pending v i (generate_and_store_preview ev i w).1
  unfolding generate_and_store_preview
  preview-Pending ev i w p = split ev.preview.write_fails ev.preview.generator_fails
    where
      stored : Vault
      stored = record w { previews = write_file i ev.preview.produced w.previews }

      kept : Pending v i (record w { previews = write_file i ev.preview.produced w.previews })
      kept = record {
        touched = record { rows = p.touched.rows; files = p.touched.files };
        unserved = p.unserved;
      }

      split :
          (a b : Bool)
          → let r : Result ℕ × Vault =
              if a
              then (err Error.failure, w)
              else if b
              then (err Error.failure, (remove_preview_step ev.preview_broken i stored).1)
              else (ok ev.preview.produced, stored) in
            Pending v i r.1
      split true b = p
      split false true = Pending-remove_preview ev.preview_broken i stored kept
      split false false = kept

  -- A new entry is processing, and its key is new.
  pub create_preliminary_entry-Post :
      (ev : Events) (db : Database) (req : EntryRequest) (plan : ProcessingPlan) (use_result : Bool)
      → Post
          (λ w. w ≡ v)
          (λ e w. (row_of e.id v ≡ none) × Pending v e.id w)
          (create_preliminary_entry ev db req plan use_result v)
  unfolding create_preliminary_entry preliminary_entry
  create_preliminary_entry-Post ev db req plan use_result =
      Post-follow (relay (default_media_fields db.content_type) v) _
        (media (default_media_fields db.content_type))
        λ fields w e.
          Post-store w
            (create_entry ev.create db (preliminary_entry req plan use_result fields) w.store)
            (create_entry-Becomes ev.create db (preliminary_entry req plan use_result fields)
              w.store)
            e
            (λ a s b.
              subst
                (λ (u : Vault). (row_of a.id u ≡ none) × Pending u a.id (record w { store = s })) e
                (b.0, new_row_Pending w a s b.1))
    where
      media : (r : Result (List (Text × Value))) → Post (λ w. w ≡ v) (λ e w. w ≡ v) (relay r v)
      media (ok f) = returned refl
      media (err e) = raised refl
