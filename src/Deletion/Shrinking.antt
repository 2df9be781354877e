-- ===== src/Deletion/Shrinking.antt =====
-- A deletion takes as many rows away as it reports.
use media_hub_oss.Prelude.{
  Bool, true, false, ℕ, ◌+◌, ◌≤◌, ◌≡◌, refl, arith, List, [], ◌∷◌, length, map, Result, ok, err,
}
use media_hub_oss.Prelude.Text.{Text}
use media_hub_oss.Repository.Types.{EntryStatus, error, deleting, Row, Store, Env, DeletedEntryMeta}
use media_hub_oss.Repository.Table.{set_statuses, keep_rows, returned_rows}
use media_hub_oss.Repository.Entries.{
  restatused, update_entries_status, without_all, delete_entries, deleted_meta,
}
use media_hub_oss.Repository.Consistency.{Leaves, leaves}
use media_hub_oss.Prelude.Answers.{Answers, answer, refusal, Answers-bind}
use media_hub_oss.Storage.{delete_multiple}
use media_hub_oss.Deletion.{
  Vault, Around, commit_deleted, roll_back_failed, delete_locked, delete_multiple_safe,
}
use media_hub_oss.Deletion.Settling.{delete_multiple_safe-cases, Leaves-after}

length-set_statuses :
    (ids : List ℕ) (st : EntryStatus) (now : ℕ) (rows : List Row)
    → length (set_statuses ids st now rows) ≡ length rows
unfolding set_statuses
length-set_statuses ids st now [] = refl
length-set_statuses ids st now (r ∷ rows) = omega (arith, length-set_statuses ids st now rows)

length-keep :
    (ids : List ℕ) (rows : List Row)
    → length (keep_rows ids rows) + length (returned_rows ids rows) ≡ length rows
unfolding keep_rows returned_rows
length-keep ids [] = refl
length-keep ids (r ∷ rows) = ground (arith, length-keep ids rows)

length-map : (rows : List Row) → length (map deleted_meta rows) ≡ length rows
length-map [] = refl
length-map (r ∷ rows) = omega (arith, length-map rows)

abbrev pub AtMostRows : ℕ → Store → Type 0
AtMostRows n s = length s.rows ≤ n

restatused-rows :
    (env : Env) (ids : List ℕ) (st : EntryStatus) (s : Store) (n : ℕ)
    → AtMostRows n s
    → AtMostRows n (restatused env ids st s)
unfolding restatused
restatused-rows env ids st s n h = omega (arith, h, length-set_statuses ids st env.now s.rows)

update_entries_status-rows :
    (env : Env) (db_id : Text) (ids : List ℕ) (st : EntryStatus) (s : Store) (n : ℕ)
    → AtMostRows n s
    → Leaves (AtMostRows n) (update_entries_status env db_id ids st s)
unfolding update_entries_status
update_entries_status-rows env db_id [] st s n h = search (leaves, h) depth 16 fits 100000
update_entries_status-rows env db_id (i ∷ is) st s n h =
    search (leaves, restatused-rows env (i ∷ is) st s n h) depth 16 fits 100000

-- The rows reported as deleted and those left are no more than before.
abbrev Reports : Store → List DeletedEntryMeta × Store → Type 0
Reports s (gone, t) = length t.rows + length gone ≤ length s.rows

without_all-Reports :
    (ids : List ℕ) (s : Store)
    → Reports s (map deleted_meta (returned_rows ids s.rows), without_all ids s)
unfolding without_all
without_all-Reports ids s =
    omega (arith, length-keep ids s.rows, length-map (returned_rows ids s.rows))

delete_entries-Reports :
    (env : Env) (db_id : Text) (ids : List ℕ) (s : Store)
    → Answers (Reports s) (delete_entries env db_id ids s)
unfolding delete_entries
delete_entries-Reports env db_id [] s = search (answer, refusal, Answers-bind) depth 16 fits 100000
delete_entries-Reports env db_id (i ∷ is) s =
    search (answer, refusal, Answers-bind, without_all-Reports (i ∷ is) s) depth 16 fits 100000

commit_deleted-Reports :
    (env : Env) (db_id : Text) (ids : List ℕ) (s : Store)
    → let ((gone, bad), t) = commit_deleted env db_id ids s in Reports s (gone, t)
unfolding commit_deleted
commit_deleted-Reports env db_id [] s = omega arith
commit_deleted-Reports env db_id (i ∷ is) s =
    split (delete_entries env db_id (i ∷ is) s) (delete_entries-Reports env db_id (i ∷ is) s)
  where
    commit : Result (List DeletedEntryMeta × Store) → (List DeletedEntryMeta × Bool) × Store
    commit r = elim r [ err e ↦ (([], true), s) | ok (gone, t) ↦ ((gone, false), t) ]

    split :
        (r : Result (List DeletedEntryMeta × Store))
        → Answers (Reports s) r
        → Reports s ((commit r).0.0, (commit r).1)
    split r (answer p) = p
    split r refusal = omega arith

roll_back_failed-rows :
    (env : Env) (db_id : Text) (ids : List ℕ) (s : Store) (n : ℕ)
    → AtMostRows n s
    → AtMostRows n (roll_back_failed env db_id ids s)
unfolding roll_back_failed
roll_back_failed-rows env db_id [] s n h = h
roll_back_failed-rows env db_id (i ∷ is) s n h =
    Leaves-after (AtMostRows n) s _ h (update_entries_status-rows env db_id (i ∷ is) error s n h)

delete_locked-rows :
    (around : Around) (db_id : Text) (ids : List ℕ) (v : Vault) (locked : Store) (n : ℕ)
    → AtMostRows n locked
    → let ((gone, bad), w) = delete_locked around db_id ids v locked in
      length w.store.rows + length gone ≤ n
unfolding delete_locked
delete_locked-rows around db_id ids v locked n h =
    let r = (delete_multiple around.broken ids v.files).0 in
    let t = (commit_deleted around.commit db_id r.success locked).1 in
    omega (
      arith,
      h,
      roll_back_failed-rows around.rollback db_id r.failed t (length t.rows) (omega arith),
      commit_deleted-Reports around.commit db_id r.success locked,
    )

-- The rows that DeleteMultipleSafe reports as deleted and those that it leaves are together no more
-- than the rows before.
pub delete_multiple_safe-rows :
    (around : Around) (db_id : Text) (ids : List ℕ) (v : Vault)
    → let ((gone, bad), w) = delete_multiple_safe around db_id ids v in
      length w.store.rows + length gone ≤ length v.store.rows
delete_multiple_safe-rows around db_id ids v =
    delete_multiple_safe-cases (AtMostRows (length v.store.rows))
      (λ o. length o.1.store.rows + length o.0.0 ≤ length v.store.rows) around db_id ids v
      (update_entries_status-rows around.lock db_id ids deleting v.store _ (omega arith))
      (omega arith) (λ locked. delete_locked-rows around db_id ids v locked (length v.store.rows))
