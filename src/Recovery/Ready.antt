-- ===== src/Recovery/Ready.antt =====
-- Recovery makes an entry ready only where its file is in storage.
use mathlib.Core.Path.{subst}
use media_hub_oss.Prelude.{
  sym, ℕ, zero, suc, ◌+◌, ◌≡◌, refl, arith, Bool, true, false, ◌∷◌, [], ◌++◌, List, elem, All,
  if◌then◌else◌, Result, ok, err, ==_iff, ◌==◌, Bool-cases, inl, inr, length,
}
use media_hub_oss.Prelude.Text.{Text}
use media_hub_oss.Prelude.Answers.{Answers, answer, refusal, answers}
use media_hub_oss.Repository.Types.{
  EntryStatus, ready, processing, error, deleting, queued, Row, Store, Env, DeletedEntryMeta,
}
use media_hub_oss.Repository.Table.{find_row}
use media_hub_oss.Repository.Table.Rows.{find_row-set_statuses, find_row-keep}
use media_hub_oss.Repository.Entries.{
  update_entries_status, restatused, delete_entries, without_all,
}
use media_hub_oss.Repository.Query.{get_entries}
use media_hub_oss.Storage.{Files, has_file}
use media_hub_oss.Deletion.{Vault, store_after}
use media_hub_oss.Deletion.Settling.{is_ready}
use media_hub_oss.Deletion.Safety.{delete_multiple_safe-ready}
use media_hub_oss.Recovery.{
  RecoveryEvents, Corrections, correct, scan_page, page_options, page_size, no_corrections,
  scan_from, marked, unzombied, unstuck, apply_corrections, entry_status_correction,
}

abbrev pub HaveFiles : Files → List ℕ → Type 0
HaveFiles files = All λ i. has_file i files ≡ true

-- Every ready entry has its file.
abbrev pub ReadyHasFile : Vault → Type 0
ReadyHasFile v = (j : ℕ) → is_ready (find_row j v.store.rows) ≡ true → has_file j v.files ≡ true

All-snoc :
    (files : Files) (is : List ℕ) (i : ℕ)
    → HaveFiles files is
    → has_file i files ≡ true
    → HaveFiles files (is ++ (i ∷ []))
All-snoc files [] i h k = (k, tt)
All-snoc files (j ∷ is) i h k = (h.0, All-snoc files is i h.1 k)

module _ (ev : RecoveryEvents) (files : Files) where
  correct-HaveFiles :
      (r : Row) (st : EntryStatus) (c : Corrections)
      → HaveFiles files c.mark_ready_ids
      → HaveFiles files (correct ev files r st c).mark_ready_ids
  correct-HaveFiles r processing c h = split (ev.stat_fails r.id) (has_file r.id files) refl
    where
      split :
          (a b : Bool)
          → has_file r.id files ≡ b
          → let d : Corrections =
              if a
              then c
              else if b
              then record c { mark_ready_ids = c.mark_ready_ids ++ (r.id ∷ []) }
              else record c { delete_zombies_ids = c.delete_zombies_ids ++ (r.id ∷ []) } in
            HaveFiles files d.mark_ready_ids
      split true b e = h
      split false true e = All-snoc files c.mark_ready_ids r.id h e
      split false false e = h
  correct-HaveFiles r deleting c h = h
  correct-HaveFiles r ready c h = h
  correct-HaveFiles r error c h = h
  correct-HaveFiles r queued c h = h

  scan_page-HaveFiles :
      (rows : List Row) (c : Corrections)
      → HaveFiles files c.mark_ready_ids
      → HaveFiles files (scan_page ev files rows c).mark_ready_ids
  unfolding scan_page
  scan_page-HaveFiles [] c h = h
  scan_page-HaveFiles (r ∷ rows) c h = scan_page-HaveFiles rows _ (correct-HaveFiles r r.status c h)

scan_from-HaveFiles :
    (fuel : ℕ) (ev : RecoveryEvents) (db_id : Text) (v : Vault) (offset : ℕ) (c : Corrections)
    → HaveFiles v.files c.mark_ready_ids
    → Answers (λ d. HaveFiles v.files d.mark_ready_ids) (scan_from fuel ev db_id v offset c)
unfolding scan_from
scan_from-HaveFiles zero ev db_id v offset c h = refusal
scan_from-HaveFiles (suc fuel) ev db_id v offset c h =
    page (get_entries ev.scan db_id (page_options offset) v.store) λ rows.
      scan_from-HaveFiles fuel ev db_id v (offset + page_size) _
        (scan_page-HaveFiles ev v.files rows c h)
  where
    page :
        (r : Result (List Row))
        → ((rows : List Row)
            → Answers
                (λ d. HaveFiles v.files d.mark_ready_ids)
                (scan_from fuel ev db_id v (offset + page_size) (scan_page ev v.files rows c)))
        → Answers
            (λ d. HaveFiles v.files d.mark_ready_ids)
            (elim r [
              | err e ↦ err e
              | ok [] ↦ ok c
              | ok (r ∷ rows) ↦
                  scan_from fuel ev db_id v (offset + page_size) (scan_page ev v.files (r ∷ rows) c)
            ])
    page (err e) k = refusal
    page (ok []) k = answer h
    page (ok (r ∷ rows)) k = k (r ∷ rows)

elem-HaveFiles :
    (files : Files) (is : List ℕ) (j : ℕ)
    → HaveFiles files is
    → elem j is ≡ true
    → has_file j files ≡ true
elem-HaveFiles files [] j h e = cc e
elem-HaveFiles files (i ∷ is) j h e = elim (Bool-cases (j == i)) [
  | inl same ↦ subst (λ k. has_file k files ≡ true) (sym ((==_iff j i).0 same)) h.0
  | inr differ ↦ elem-HaveFiles files is j h.1 (ground (arith, differ, e))
]

-- What the first two corrections leave of a row.
restatused-rest :
    (env : Env) (ids : List ℕ) (st : EntryStatus) (s : Store) (j : ℕ)
    → elem j ids ≡ false
    → find_row j (restatused env ids st s).rows ≡ find_row j s.rows
unfolding restatused
restatused-rest env ids st s j h = ground (arith, h, find_row-set_statuses ids st env.now j s.rows)

update_statuses-rest :
    (env : Env) (db_id : Text) (i : ℕ) (is : List ℕ) (st : EntryStatus) (s : Store)
    → Answers
        (λ (a : Unit {0} × Store).
          (j : ℕ) → elem j (i ∷ is) ≡ false → find_row j a.1.rows ≡ find_row j s.rows)
        (update_entries_status env db_id (i ∷ is) st s)
unfolding update_entries_status
update_statuses-rest env db_id i is st s =
    search (answers, restatused-rest env (i ∷ is) st s) depth 24 fits 100000

without_all-ready :
    (ids : List ℕ) (s : Store) (j : ℕ)
    → is_ready (find_row j (without_all ids s).rows) ≡ true
    → is_ready (find_row j s.rows) ≡ true
unfolding without_all
without_all-ready ids s j h = ground (arith, h, find_row-keep ids j s.rows)

delete_entries-ready :
    (env : Env) (db_id : Text) (i : ℕ) (is : List ℕ) (s : Store)
    → Answers
        (λ (a : List DeletedEntryMeta × Store).
          (j : ℕ) → is_ready (find_row j a.1.rows) ≡ true → is_ready (find_row j s.rows) ≡ true)
        (delete_entries env db_id (i ∷ is) s)
unfolding delete_entries
delete_entries-ready env db_id i is s =
    search (answers, without_all-ready (i ∷ is) s) depth 24 fits 100000

module _ (ev : RecoveryEvents) (db_id : Text) where
  marked-ReadyHasFile :
      (ids : List ℕ) (v : Vault)
      → HaveFiles v.files ids
      → ReadyHasFile v
      → ReadyHasFile (record v { store = marked ev db_id ids v.store })
  marked-ReadyHasFile [] v h k = k
  marked-ReadyHasFile (i ∷ is) v h k =
      split (update_entries_status ev.mark_ready db_id (i ∷ is) ready v.store)
        (update_statuses-rest ev.mark_ready db_id i is ready v.store)
    where
      split :
          (r : Result (Unit {0} × Store))
          → Answers
              (λ (a : Unit {0} × Store).
                (j : ℕ) → elem j (i ∷ is) ≡ false → find_row j a.1.rows ≡ find_row j v.store.rows)
              r
          → ReadyHasFile (record v { store = store_after v.store r })
      split (err e) refusal j e2 = k j e2
      split (ok (t, s)) (answer rest) j e = elim (Bool-cases (elem j (i ∷ is))) [
        | inl found ↦ elem-HaveFiles v.files (i ∷ is) j h found
        | inr other ↦ k j (cc (rest j other, e))
      ]

  unzombied-ReadyHasFile :
      (ids : List ℕ) (v : Vault)
      → ReadyHasFile v
      → ReadyHasFile (record v { store = unzombied ev db_id ids v.store })
  unzombied-ReadyHasFile [] v k = k
  unzombied-ReadyHasFile (i ∷ is) v k =
      split (delete_entries ev.delete_zombies db_id (i ∷ is) v.store)
        (delete_entries-ready ev.delete_zombies db_id i is v.store)
    where
      split :
          (r : Result (List DeletedEntryMeta × Store))
          → Answers
              (λ (a : List DeletedEntryMeta × Store).
                (j : ℕ)
                → is_ready (find_row j a.1.rows) ≡ true
                → is_ready (find_row j v.store.rows) ≡ true)
              r
          → ReadyHasFile (record v { store = store_after v.store r })
      split (err e) refusal j e2 = k j e2
      split (ok (gone, s)) (answer before) j e = k j (before j e)

  unstuck-ReadyHasFile :
      (ids : List ℕ) (v : Vault) → ReadyHasFile v → ReadyHasFile (unstuck ev db_id ids v)
  unstuck-ReadyHasFile [] v k j e = k j e
  unstuck-ReadyHasFile (i ∷ is) v k j e =
      let kept = delete_multiple_safe-ready ev.delete_stuck db_id (i ∷ is) v j e in
      rw (has_file, kept.1) (k j (cc (kept.0, e)))

  apply_corrections-ReadyHasFile :
      (c : Corrections) (v : Vault)
      → HaveFiles v.files c.mark_ready_ids
      → ReadyHasFile v
      → ReadyHasFile (apply_corrections ev db_id c v)
  unfolding apply_corrections
  apply_corrections-ReadyHasFile c v h k =
      unstuck-ReadyHasFile c.delete_stuck_ids
        (record v {
          store =
              unzombied ev db_id c.delete_zombies_ids (marked ev db_id c.mark_ready_ids v.store);
        })
        (unzombied-ReadyHasFile c.delete_zombies_ids
          (record v { store = marked ev db_id c.mark_ready_ids v.store })
          (marked-ReadyHasFile c.mark_ready_ids v h k))

  -- If every ready entry has its file, that is so after EntryStatusCorrection, which makes entries
  -- that were processing ready and deletes others, whatever fails on the way.
  pub entry_status_correction-ReadyHasFile :
      (v : Vault) → ReadyHasFile v → ReadyHasFile (entry_status_correction ev db_id v).1
  unfolding entry_status_correction
  entry_status_correction-ReadyHasFile v k =
      split ev.stats_fails (scan_from (suc (length v.store.rows)) ev db_id v 0 no_corrections)
        ev.dry_run (scan_from-HaveFiles (suc (length v.store.rows)) ev db_id v 0 no_corrections tt)
    where
      split :
          (b : Bool) (r : Result Corrections) (dry : Bool)
          → Answers (λ d. HaveFiles v.files d.mark_ready_ids) r
          → let o : Result (Unit {0}) × Vault = if b then (ok tt, v) else elim r [
            | err e ↦ (err e, v)
            | ok c ↦ (ok tt, if dry then v else apply_corrections ev db_id c v)
          ] in
            ReadyHasFile o.1
      split true r dry h = k
      split false (err e) dry refusal = k
      split false (ok c) true (answer h) = k
      split false (ok c) false (answer h) = apply_corrections-ReadyHasFile c v h k
