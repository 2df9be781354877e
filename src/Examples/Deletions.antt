-- ===== src/Examples/Deletions.antt =====
-- Deletions and sweeps on concrete vaults.
use media_hub_oss.Prelude.{◌≡◌, refl, arith, true, [], ◌∷◌, ok, none}
use media_hub_oss.Repository.Table.{find_row, set_statuses, keep_rows, returned_rows}
use media_hub_oss.Repository.Entries.{
  update_entries_status, restatused, delete_entries, without_all,
}
use media_hub_oss.Repository.Consistency.{IsConsistent}
use media_hub_oss.Storage.{file_size, drop_file, remove_file, delete_multiple}
use media_hub_oss.Deletion.{delete_multiple_safe, delete_locked, commit_deleted, roll_back_failed}
use media_hub_oss.Deletion.Safety.{
  delete_multiple_safe-ready, delete_multiple_safe_complete, delete_multiple_safe-IsConsistent,
}
use media_hub_oss.Housekeeping.{Weather, run_db_housekeeping}
use media_hub_oss.Housekeeping.Sweeps.{Keeps}
use media_hub_oss.Housekeeping.Runs.{Runs, run_db_housekeeping-in_flight}
use media_hub_oss.Examples.{works, db_id, image_db, vault, all_works, third_broken}

vault-IsConsistent : IsConsistent vault.store
vault-IsConsistent = omega arith

-- Entry 1 stays ready when 3 is to go and its file cannot be removed.
delete_multiple_safe-ready_example :
    let w = (delete_multiple_safe third_broken db_id (3 ∷ []) vault).1 in
    (find_row 1 w.store.rows ≡ find_row 1 vault.store.rows)
    × (file_size 1 w.files ≡ file_size 1 vault.files)
    × (file_size 1 w.previews ≡ file_size 1 vault.previews)
unfolding delete_multiple_safe delete_locked commit_deleted roll_back_failed update_entries_status
    restatused set_statuses find_row delete_multiple remove_file file_size drop_file
delete_multiple_safe-ready_example =
    delete_multiple_safe-ready third_broken db_id (3 ∷ []) vault 1 refl

delete_multiple_safe_complete_example :
    let w = (delete_multiple_safe all_works db_id (1 ∷ 3 ∷ []) vault).1 in
    (find_row 3 w.store.rows ≡ none) × (file_size 3 w.files ≡ none)
unfolding delete_multiple_safe delete_locked commit_deleted roll_back_failed update_entries_status
    restatused set_statuses find_row delete_multiple remove_file file_size drop_file delete_entries
    without_all keep_rows returned_rows
delete_multiple_safe_complete_example =
    delete_multiple_safe_complete all_works db_id (1 ∷ 3 ∷ []) vault 3 refl refl

delete_multiple_safe-IsConsistent_example :
    IsConsistent (delete_multiple_safe third_broken db_id (1 ∷ 3 ∷ []) vault).1.store
delete_multiple_safe-IsConsistent_example =
    delete_multiple_safe-IsConsistent third_broken db_id (1 ∷ 3 ∷ []) vault vault-IsConsistent

abbrev calm : Weather
calm = record {
  acquired = ok true;
  db_time = ok 0;
  fetch = λ n. works;
  around = λ n. third_broken;
  called = ok tt;
}

-- Entry 2 is being processed, and the database is over its disk limit.
run_db_housekeeping-in_flight_example :
    Runs (Keeps 2 vault) (run_db_housekeeping calm image_db vault)
unfolding find_row
run_db_housekeeping-in_flight_example =
    run_db_housekeeping-in_flight 2 vault calm image_db refl vault-IsConsistent
