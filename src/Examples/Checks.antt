-- ===== src/Examples/Checks.antt =====
-- An integrity check: a ready entry without its file, and a file without an entry.
use media_hub_oss.Prelude.{◌≡◌, refl, false, some, [], ◌∷◌}
use media_hub_oss.Repository.Types.{ready}
use media_hub_oss.Repository.Table.{find_row}
use media_hub_oss.Repository.Query.{get_entries, validate, select_rows}
use media_hub_oss.Prelude.Text.{to_lower}
use media_hub_oss.Storage.{file_size, delete_multiple, remove_file}
use media_hub_oss.Deletion.{Vault}
use media_hub_oss.Recovery.Integrity.{IntegrityEvents, integrity_check}
use media_hub_oss.Recovery.Integrity.Matching.{
  mismatched, integrity_check-keeps, integrity_check-matched,
}
use media_hub_oss.Examples.{works, works-Works, db_id, row}

abbrev check : IntegrityEvents
check = record {
  dry_run = false;
  scan = works;
  stat_fails = λ id. false;
  walk_fails = false;
  walk_previews_fails = false;
  delete_missing = works;
  broken = λ id. false;
  preview_broken = λ id. false;
  count = works;
  write_stats = works;
}

-- Entry 1 has lost its file of 10 bytes, but not its preview of 7; file 9 has no entry.
abbrev damaged : Vault
damaged = record {
  store = record {
    stats = record { entry_count = 2; total_disk_space_bytes = 0; queued_count = 0 };
    rows = row 1 ready ∷ row 2 ready ∷ [];
    last_id = 2;
    custom_fields = [];
  };
  files = (2, 10) ∷ (9, 30) ∷ [];
  previews = (1, 7) ∷ [];
}

-- The bytes of the preview that goes with its entry stay in the statistics.
stale_preview_bytes :
    ((integrity_check check db_id damaged).1.store.stats.total_disk_space_bytes ≡ 17)
    × (((integrity_check check db_id damaged).1.files ≡ (2, 10) ∷ [])
        × ((integrity_check check db_id damaged).1.previews ≡ []))
unfolding integrity_check get_entries validate to_lower select_rows delete_multiple remove_file
stale_preview_bytes = (refl, (refl, refl))

integrity_check-keeps_example :
    (find_row 2 (integrity_check check db_id damaged).1.store.rows ≡ some (row 2 ready))
    × (file_size 2 (integrity_check check db_id damaged).1.files ≡ file_size 2 damaged.files)
unfolding find_row file_size
integrity_check-keeps_example = integrity_check-keeps check db_id damaged 2 (row 2 ready) refl refl

integrity_check-matched_example :
    mismatched check db_id damaged 9 (integrity_check check db_id damaged).1 ≡ false
integrity_check-matched_example =
    integrity_check-matched check db_id damaged 9 refl refl refl refl refl works-Works (λ i. refl)
      λ i. refl
