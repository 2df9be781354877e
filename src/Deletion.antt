-- ===== src/Deletion.antt =====
-- internal/shared/deletion.go: deletion of entries in two phases, over the repository and the file
-- storage of one database.
pub mod Settling
pub mod Safety
pub mod Shrinking
use media_hub_oss.Prelude.{
  ℕ, Bool, true, false, ◌||◌, Option, none, some, List, [], ◌∷◌, Result, ok, err, Error,
  if◌then◌else◌,
}
use media_hub_oss.Prelude.Text.{Text}
use media_hub_oss.Repository.Types.{error, deleting, DeletedEntryMeta, Store, Env}
use media_hub_oss.Repository.Entries.{update_entries_status, delete_entry, delete_entries}
use media_hub_oss.Storage.{Files, BulkDeleteResult, remove_file, delete_multiple}

pub record Vault : Type 0 where
  pub store : Store
  pub files : Files
  pub previews : Files

-- What the three phases meet: the driver in each of them, and the file system.
pub record Around : Type 0 where
  pub lock : Env
  pub commit : Env
  pub rollback : Env
  pub broken : ℕ → Bool
  pub preview_broken : ℕ → Bool

abbrev pub some_id : List ℕ → Bool
some_id [] = false
some_id (i ∷ is) = true

-- The store after a call whose error is ignored.
abbrev pub store_after : {A : Type 0} → Store → Result (A × Store) → Store
store_after s (ok (a, s')) = s'
store_after s (err e) = s

unfoldable pub delete_safe : Around → Text → ℕ → Vault → Result DeletedEntryMeta × Vault
delete_safe around db_id id v =
    elim (update_entries_status around.lock db_id (id ∷ []) deleting v.store) [
      | err e ↦ (err e, v)
      | ok (_, locked) ↦
          let (removed, files) = remove_file around.broken id v.files in
          let previews = (remove_file around.preview_broken id v.previews).1 in
          if removed
          then (elim (delete_entry around.commit db_id id locked) [
            | err e ↦ (err e, record { store = locked; files = files; previews = previews })
            | ok (gone, store) ↦
                (ok gone, record { store = store; files = files; previews = previews })
          ])
          else (
            err Error.failure,
            record v {
              store =
                  store_after locked
                    (update_entries_status around.rollback db_id (id ∷ []) error locked);
            },
          )
    ]

-- Phase 3, commit: the rows of the removed files.
unfoldable pub commit_deleted : Env → Text → List ℕ → Store → (List DeletedEntryMeta × Bool) × Store
commit_deleted env db_id [] s = (([], false), s)
commit_deleted env db_id (i ∷ is) s = elim (delete_entries env db_id (i ∷ is) s) [
  | err e ↦ (([], true), s)
  | ok (gone, s') ↦ ((gone, false), s')
]

-- Phase 3, rollback: the rows of the files that could not be removed.
unfoldable pub roll_back_failed : Env → Text → List ℕ → Store → Store
roll_back_failed env db_id [] s = s
roll_back_failed env db_id (i ∷ is) s =
    store_after s (update_entries_status env db_id (i ∷ is) error s)

-- Phases 2 and 3, with the result: the rows deleted, and whether any error occurred.
unfoldable pub delete_locked :
    Around → Text → List ℕ → Vault → Store → (List DeletedEntryMeta × Bool) × Vault
delete_locked around db_id ids v locked =
    let (result, files) = delete_multiple around.broken ids v.files in
    let previews = (delete_multiple around.preview_broken result.success v.previews).1 in
    let ((gone, commit_failed), store) = commit_deleted around.commit db_id result.success locked in
    (
      (gone, some_id result.failed || commit_failed),
      record {
        store = roll_back_failed around.rollback db_id result.failed store;
        files = files;
        previews = previews;
      },
    )

unfoldable pub delete_multiple_safe :
    Around → Text → List ℕ → Vault → (List DeletedEntryMeta × Bool) × Vault
delete_multiple_safe around db_id ids v =
    elim (update_entries_status around.lock db_id ids deleting v.store) [
      | err e ↦ (([], true), v)
      | ok (_, locked) ↦ delete_locked around db_id ids v locked
    ]
