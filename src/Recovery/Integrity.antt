-- ===== src/Recovery/Integrity.antt =====
-- internal/cli/recovery/integritycheck.go: rows against files, for one database. The scan has fuel,
-- one unit for each page. `slices.BinarySearch` on the sorted ids is membership.
pub mod Scan
pub mod Fixes
pub mod Matching
use media_hub_oss.Prelude.{
  ℕ, zero, suc, ◌+◌, ◌-◌, ◌%◌, Bool, true, false, not, ◌&&◌, ltb, elem, if◌then◌else◌, List, [],
  ◌∷◌, ◌++◌, length, Result, ok, err, Error, require, call, ◌>>=◌, ◌>>◌,
}
use media_hub_oss.Prelude.Text.{Text}
use media_hub_oss.Repository.Types.{ready, queued, status_eq, DatabaseStats, Row, Store, Env}
use media_hub_oss.Repository.Table.{two64}
use media_hub_oss.Repository.Entries.{delete_entries, count_entries_by_status}
use media_hub_oss.Repository.Query.{get_entries}
use media_hub_oss.Storage.{Files, has_file, delete_multiple}
use media_hub_oss.Deletion.{Vault, store_after}
use media_hub_oss.Recovery.{page_size, page_options}

-- The driver in each call, the files whose state cannot be read, the walks that fail, and the files
-- that cannot be removed.
pub record IntegrityEvents : Type 0 where
  pub dry_run : Bool
  pub scan : Env
  pub stat_fails : ℕ → Bool
  pub walk_fails : Bool
  pub walk_previews_fails : Bool
  pub delete_missing : Env
  pub broken : ℕ → Bool
  pub preview_broken : ℕ → Bool
  pub count : Env
  pub write_stats : Env

-- What checkMissingFiles finds.
pub record Scanned : Type 0 where
  pub missing_ids : List ℕ
  pub total : ℕ
  pub existing_ids : List ℕ

-- Only a ready entry has to have its file; a file whose state cannot be read is logged.
abbrev pub is_missing : IntegrityEvents → Files → Row → Bool
is_missing ev files r =
    status_eq r.status ready && (not (ev.stat_fails r.id) && not (has_file r.id files))

abbrev pub check_entry : IntegrityEvents → Files → Row → Scanned → Scanned
check_entry ev files r c = record {
  missing_ids = if is_missing ev files r then c.missing_ids ++ (r.id ∷ []) else c.missing_ids;
  total = c.total + 1;
  existing_ids = c.existing_ids ++ (r.id ∷ []);
}

unfoldable pub check_page : IntegrityEvents → Files → List Row → Scanned → Scanned
check_page ev files [] c = c
check_page ev files (r ∷ rows) c = check_page ev files rows (check_entry ev files r c)

unfoldable pub check_from : ℕ → IntegrityEvents → Text → Vault → ℕ → Scanned → Result Scanned
unfolding check_page
check_from zero ev db_id v offset c = err Error.failure
check_from (suc fuel) ev db_id v offset c =
    elim (get_entries ev.scan db_id (page_options offset) v.store) [
      | err e ↦ err e
      | ok [] ↦ ok c
      | ok (r ∷ rows) ↦
          check_from fuel ev db_id v (offset + page_size) (check_page ev v.files (r ∷ rows) c)
    ]

abbrev pub nothing_scanned : Scanned
nothing_scanned = record { missing_ids = []; total = 0; existing_ids = [] }

unfoldable pub check_missing_files : IntegrityEvents → Text → Vault → Result Scanned
unfolding check_from
check_missing_files ev db_id v = check_from (suc (length v.store.rows)) ev db_id v 0 nothing_scanned

-- The files without an entry.
unfoldable pub orphans : List ℕ → Files → List ℕ
orphans existing [] = []
orphans existing ((i, n) ∷ fs) =
    let rest = orphans existing fs in if elem i existing then rest else i ∷ rest

-- The bytes of the others, in uint64.
unfoldable pub valid_bytes : List ℕ → ℕ → Files → ℕ
valid_bytes existing sum [] = sum
valid_bytes existing sum ((i, n) ∷ fs) =
    valid_bytes existing (if elem i existing then (sum + n) % two64 else sum) fs

unfoldable pub check_orphan_files : Bool → List ℕ → Files → Result (List ℕ × ℕ)
unfolding orphans valid_bytes
check_orphan_files walk_fails existing fs =
    if walk_fails then err Error.failure else ok (orphans existing fs, valid_bytes existing 0 fs)

unfoldable pub update_database_stats : Env → Text → DatabaseStats → Store → Result Store
update_database_stats env db_id stats s = do
  require (env.is_valid_ulid db_id) Error.validation
  call env.exec_fails
  ok (record s { stats = stats })

abbrev pub removed_missing : IntegrityEvents → Text → List ℕ → Vault → Vault
removed_missing ev db_id [] v = v
removed_missing ev db_id (i ∷ is) v = record v {
  previews = (delete_multiple ev.preview_broken (i ∷ is) v.previews).1;
  store = store_after v.store (delete_entries ev.delete_missing db_id (i ∷ is) v.store);
}

-- An empty list is a call less with the same effect.
abbrev pub removed_orphans : IntegrityEvents → List ℕ → List ℕ → Vault → Vault
removed_orphans ev files previews v = record v {
  files = (delete_multiple ev.broken files v.files).1;
  previews = (delete_multiple ev.preview_broken previews v.previews).1;
}

-- `old` are the statistics that were read with the database, `bytes` is what the walks have found.
abbrev pub synced_stats :
    IntegrityEvents → Text → Scanned → ℕ → DatabaseStats → Store → DatabaseStats
synced_stats ev db_id c bytes old s = record {
  entry_count = if ltb (length c.missing_ids) c.total then c.total - length c.missing_ids else 0;
  total_disk_space_bytes = bytes;
  queued_count = elim (count_entries_by_status ev.count db_id queued s) [
    | err e ↦ old.queued_count
    | ok n ↦ n
  ];
}

abbrev pub with_stats : IntegrityEvents → Text → DatabaseStats → Vault → Vault
with_stats ev db_id stats v = elim (update_database_stats ev.write_stats db_id stats v.store) [
  | err e ↦ v
  | ok s ↦ record v { store = s }
]

-- Phase 2.5
unfoldable pub fix_integrity :
    IntegrityEvents → Text → Scanned → List ℕ × ℕ → List ℕ × ℕ → Vault → Vault
unfolding update_database_stats
fix_integrity ev db_id c (files, bytes) (previews, preview_bytes) v =
    let fixed = removed_orphans ev files previews (removed_missing ev db_id c.missing_ids v) in
    with_stats ev db_id
      (synced_stats ev db_id c ((bytes + preview_bytes) % two64) v.store.stats fixed.store) fixed

-- IntegrityCheck: an error stops it before anything is changed.
unfoldable pub integrity_check : IntegrityEvents → Text → Vault → Result (Unit {0}) × Vault
unfolding check_missing_files check_orphan_files fix_integrity
integrity_check ev db_id v = elim (check_missing_files ev db_id v) [
  | err e ↦ (err e, v)
  | ok c ↦ elim (check_orphan_files ev.walk_fails c.existing_ids v.files) [
    | err e ↦ (err e, v)
    | ok files ↦ elim (check_orphan_files ev.walk_previews_fails c.existing_ids v.previews) [
      | err e ↦ (err e, v)
      | ok previews ↦ (ok tt, if ev.dry_run then v else fix_integrity ev db_id c files previews v)
    ]
  ]
]
