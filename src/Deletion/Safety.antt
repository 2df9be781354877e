-- ===== src/Deletion/Safety.antt =====
-- What a caller may rely on after a deletion in two phases.
use media_hub_oss.Prelude.{
  ℕ, ◌≡◌, refl, arith, Bool, true, false, none, List, [], ◌∷◌, elem, Result, ok, err,
}
use media_hub_oss.Prelude.Text.{Text}
use media_hub_oss.Repository.Types.{Store, Env, DeletedEntryMeta, deleting}
use media_hub_oss.Repository.Table.{find_row}
use media_hub_oss.Repository.Table.Rows.{find_row-keep}
use media_hub_oss.Repository.Entries.{update_entries_status, without_all, delete_entries}
use media_hub_oss.Repository.Consistency.{IsConsistent, Leaves, done, failed, leaves}
use media_hub_oss.Repository.Consistency.Changing.{update_entries_status-IsConsistent}
use media_hub_oss.Deletion.{
  Vault, delete_multiple_safe, delete_locked, some_id, Around, commit_deleted, roll_back_failed,
}
use media_hub_oss.Storage.{Files, file_size, delete_multiple}
use media_hub_oss.Storage.Removal.{
  delete_multiple-other, delete_multiple-success, delete_multiple-reports,
}
use media_hub_oss.Deletion.Settling.{
  is_ready, Settles, Within, update_entries_status-Settles, finished, finished-Settles,
  finished-IsConsistent, delete_multiple_safe-cases,
}

-- The ids that DeleteMultiple reports are among the given ones.
success-Within :
    (broken : ℕ → Bool) (ids : List ℕ) (fs : Files)
    → Within (delete_multiple broken ids fs).0.success ids
success-Within broken ids fs i h = ground (arith, delete_multiple-reports broken ids i fs)

failed-Within :
    (broken : ℕ → Bool) (ids : List ℕ) (fs : Files)
    → Within (delete_multiple broken ids fs).0.failed ids
failed-Within broken ids fs i h = ground (arith, delete_multiple-reports broken ids i fs)

delete_locked-Settles :
    (around : Around) (db_id : Text) (ids : List ℕ) (v : Vault) (locked : Store)
    → Settles ids v.store locked
    → Settles ids v.store (delete_locked around db_id ids v locked).1.store
unfolding delete_locked finished
delete_locked-Settles around db_id ids v locked =
    finished-Settles around db_id (delete_multiple around.broken ids v.files).0.success
      (delete_multiple around.broken ids v.files).0.failed ids v.store locked
      (success-Within around.broken ids v.files) (failed-Within around.broken ids v.files)

delete_locked-IsConsistent :
    (around : Around) (db_id : Text) (ids : List ℕ) (v : Vault) (locked : Store)
    → IsConsistent locked
    → IsConsistent (delete_locked around db_id ids v locked).1.store
unfolding delete_locked finished
delete_locked-IsConsistent around db_id ids v locked =
    finished-IsConsistent around db_id (delete_multiple around.broken ids v.files).0.success
      (delete_multiple around.broken ids v.files).0.failed locked

-- DeleteMultipleSafe keeps the statistics of the database equal to the contents of its entry table,
-- whatever fails on the way.
pub delete_multiple_safe-IsConsistent :
    (around : Around) (db_id : Text) (ids : List ℕ) (v : Vault)
    → IsConsistent v.store
    → IsConsistent (delete_multiple_safe around db_id ids v).1.store
delete_multiple_safe-IsConsistent around db_id ids v h =
    delete_multiple_safe-cases IsConsistent (λ o. IsConsistent o.1.store) around db_id ids v
      (update_entries_status-IsConsistent around.lock db_id ids deleting v.store h) h
      (delete_locked-IsConsistent around db_id ids v)

delete_locked-files :
    (around : Around) (db_id : Text) (ids : List ℕ) (v : Vault) (locked : Store) (i : ℕ)
    → elem i ids ≡ false
    → file_size i (delete_locked around db_id ids v locked).1.files ≡ file_size i v.files
unfolding delete_locked
delete_locked-files around db_id ids v locked i = delete_multiple-other around.broken ids i v.files

delete_locked-previews :
    (around : Around) (db_id : Text) (ids : List ℕ) (v : Vault) (locked : Store) (i : ℕ)
    → elem i ids ≡ false
    → file_size i (delete_locked around db_id ids v locked).1.previews ≡ file_size i v.previews
unfolding delete_locked
delete_locked-previews around db_id ids v locked i h =
    delete_multiple-other around.preview_broken
      (delete_multiple around.broken ids v.files).0.success i v.previews
      (ground (arith, h, delete_multiple-reports around.broken ids i v.files))

-- An entry that is ready after DeleteMultipleSafe has the row, the file and the preview that it had
-- before, whatever fails on the way.
pub delete_multiple_safe-ready :
    (around : Around) (db_id : Text) (ids : List ℕ) (v : Vault) (i : ℕ)
    → let w = (delete_multiple_safe around db_id ids v).1 in
      is_ready (find_row i w.store.rows) ≡ true
      → (find_row i w.store.rows ≡ find_row i v.store.rows)
        × (file_size i w.files ≡ file_size i v.files)
        × (file_size i w.previews ≡ file_size i v.previews)
delete_multiple_safe-ready around db_id ids v i =
    delete_multiple_safe-cases (Settles ids v.store)
      (λ o.
        is_ready (find_row i o.1.store.rows) ≡ true
        → (find_row i o.1.store.rows ≡ find_row i v.store.rows)
          × (file_size i o.1.files ≡ file_size i v.files)
          × (file_size i o.1.previews ≡ file_size i v.previews))
      around db_id ids v (update_entries_status-Settles around.lock db_id ids deleting v.store refl)
      (λ h. (refl, refl, refl))
      (λ locked q h. ground (
        arith,
        delete_locked-Settles around db_id ids v locked q i,
        delete_locked-files around db_id ids v locked i,
        delete_locked-previews around db_id ids v locked i,
        h,
      ))

without_all-gone :
    (ids : List ℕ) (i : ℕ) (s : Store)
    → elem i ids ≡ true
    → find_row i (without_all ids s).rows ≡ none
unfolding without_all
without_all-gone ids i s h = ground (arith, find_row-keep ids i s.rows)

delete_entries-gone :
    (env : Env) (db_id : Text) (ids : List ℕ) (i : ℕ) (s : Store)
    → elem i ids ≡ true
    → Leaves (λ t. find_row i t.rows ≡ none) (delete_entries env db_id ids s)
unfolding delete_entries
delete_entries-gone env db_id [] i s h = search leaves depth 16 fits 100000
delete_entries-gone env db_id (j ∷ js) i s h =
    search (leaves, without_all-gone (j ∷ js) i s h) depth 16 fits 100000

commit_deleted-gone :
    (env : Env) (db_id : Text) (ids : List ℕ) (i : ℕ) (s : Store)
    → (commit_deleted env db_id ids s).0.1 ≡ false
    → elem i ids ≡ true
    → find_row i (commit_deleted env db_id ids s).1.rows ≡ none
unfolding commit_deleted
commit_deleted-gone env db_id [] i s h k = ground (arith, k)
commit_deleted-gone env db_id (j ∷ js) i s h k =
    split (delete_entries env db_id (j ∷ js) s) (delete_entries-gone env db_id (j ∷ js) i s k) h
  where
    commit : Result (List DeletedEntryMeta × Store) → (List DeletedEntryMeta × Bool) × Store
    commit r = elim r [ err e ↦ (([], true), s) | ok (gone, t) ↦ ((gone, false), t) ]

    split :
        (r : Result (List DeletedEntryMeta × Store))
        → Leaves (λ t. find_row i t.rows ≡ none) r
        → (commit r).0.1 ≡ false
        → find_row i (commit r).1.rows ≡ none
    split r (done p) c = p
    split r failed c = ground (arith, c)

roll_back_failed-none :
    (env : Env) (db_id : Text) (ids : List ℕ) (s : Store)
    → some_id ids ≡ false
    → roll_back_failed env db_id ids s ≡ s
unfolding roll_back_failed
roll_back_failed-none env db_id [] s h = refl
roll_back_failed-none env db_id (i ∷ is) s h = ground (arith, h)

elem-none : (i : ℕ) (ids : List ℕ) → some_id ids ≡ false → elem i ids ≡ false
elem-none i [] h = refl
elem-none i (j ∷ js) h = ground (arith, h)

delete_locked_complete :
    (around : Around) (db_id : Text) (ids : List ℕ) (v : Vault) (locked : Store) (i : ℕ)
    → let o = delete_locked around db_id ids v locked in
      o.0.1 ≡ false
      → elem i ids ≡ true
      → (find_row i o.1.store.rows ≡ none) × (file_size i o.1.files ≡ none)
unfolding delete_locked
delete_locked_complete around db_id ids v locked i h k = ground (
  arith,
  delete_multiple-success around.broken ids i v.files,
  delete_multiple-reports around.broken ids i v.files,
  elem-none i (delete_multiple around.broken ids v.files).0.failed,
  roll_back_failed-none around.rollback db_id (delete_multiple around.broken ids v.files).0.failed
      (commit_deleted around.commit db_id (delete_multiple around.broken ids v.files).0.success
        locked).1,
  commit_deleted-gone around.commit db_id (delete_multiple around.broken ids v.files).0.success i
      locked,
  h,
  k,
)

Leaves-true : {A : Type 0} (r : Result (A × Store)) → Leaves (λ s. Unit {0}) r
Leaves-true (ok (a, s)) = done tt
Leaves-true (err e) = failed

-- When DeleteMultipleSafe reports no error, none of the ids has a row or a file any more.
pub delete_multiple_safe_complete :
    (around : Around) (db_id : Text) (ids : List ℕ) (v : Vault) (i : ℕ)
    → let ((gone, had_error), w) = delete_multiple_safe around db_id ids v in
      had_error ≡ false
      → elem i ids ≡ true
      → (find_row i w.store.rows ≡ none) × (file_size i w.files ≡ none)
delete_multiple_safe_complete around db_id ids v i =
    delete_multiple_safe-cases (λ s. Unit {0})
      (λ o.
        o.0.1 ≡ false
        → elem i ids ≡ true
        → (find_row i o.1.store.rows ≡ none) × (file_size i o.1.files ≡ none))
      around db_id ids v
      (Leaves-true (update_entries_status around.lock db_id ids deleting v.store))
      (λ h. ground (arith, h))
      (λ locked q h k. delete_locked_complete around db_id ids v locked i h k)

-- DeleteMultipleSafe leaves an entry alone that is not among its ids.
pub delete_multiple_safe-other :
    (around : Around) (db_id : Text) (ids : List ℕ) (v : Vault) (i : ℕ)
    → elem i ids ≡ false
    → let w = (delete_multiple_safe around db_id ids v).1 in
      (find_row i w.store.rows ≡ find_row i v.store.rows)
      × (file_size i w.files ≡ file_size i v.files)
      × (file_size i w.previews ≡ file_size i v.previews)
delete_multiple_safe-other around db_id ids v i h =
    delete_multiple_safe-cases (Settles ids v.store)
      (λ o.
        (find_row i o.1.store.rows ≡ find_row i v.store.rows)
        × (file_size i o.1.files ≡ file_size i v.files)
        × (file_size i o.1.previews ≡ file_size i v.previews))
      around db_id ids v (update_entries_status-Settles around.lock db_id ids deleting v.store refl)
      (refl, refl, refl)
      (λ locked q. ground (
        arith,
        delete_locked-Settles around db_id ids v locked q i,
        delete_locked-files around db_id ids v locked i,
        delete_locked-previews around db_id ids v locked i,
        h,
      ))
