-- ===== src/Recovery.antt =====
-- internal/cli/recovery/entry_status_correction.go: what a restart does with the entries that were
-- in flight, for one database. The scan has no bound in the source; it has fuel here, one unit for
-- each page.
pub mod Ready
pub mod Pages
pub mod Integrity
use media_hub_oss.Prelude.{
  ℕ, zero, suc, ◌+◌, ℤ, pos, Bool, true, false, not, if◌then◌else◌, Option, none, some, List, [],
  ◌∷◌, ◌++◌, length, Result, ok, err, Error,
}
use media_hub_oss.Prelude.Text.{Text, codes}
use media_hub_oss.Repository.Types.{
  EntryStatus, ready, processing, error, deleting, queued, Row, Store, Env,
}
use media_hub_oss.Repository.Entries.{update_entries_status, delete_entries}
use media_hub_oss.Repository.Query.{QueryOptions, get_entries}
use media_hub_oss.Storage.{Files, has_file}
use media_hub_oss.Deletion.{Vault, Around, some_id, store_after, delete_multiple_safe}

-- The driver in each call, and the files whose state cannot be read.
pub record RecoveryEvents : Type 0 where
  pub dry_run : Bool
  pub stats_fails : Bool
  pub scan : Env
  pub mark_ready : Env
  pub delete_zombies : Env
  pub delete_stuck : Around
  pub stat_fails : ℕ → Bool

pub record Corrections : Type 0 where
  pub mark_ready_ids : List ℕ
  pub delete_zombies_ids : List ℕ
  pub delete_stuck_ids : List ℕ

-- What one entry calls for.
abbrev pub correct : RecoveryEvents → Files → Row → EntryStatus → Corrections → Corrections
correct ev files r processing c =
    if ev.stat_fails r.id
    then c
    else if has_file r.id files
    then record c { mark_ready_ids = c.mark_ready_ids ++ (r.id ∷ []) }
    else record c { delete_zombies_ids = c.delete_zombies_ids ++ (r.id ∷ []) }
correct ev files r deleting c = record c { delete_stuck_ids = c.delete_stuck_ids ++ (r.id ∷ []) }
correct ev files r ready c = c
correct ev files r error c = c
correct ev files r queued c = c

unfoldable pub scan_page : RecoveryEvents → Files → List Row → Corrections → Corrections
scan_page ev files [] c = c
scan_page ev files (r ∷ rows) c = scan_page ev files rows (correct ev files r r.status c)

abbrev pub page_size : ℕ
page_size = 1_000

abbrev pub page_options : ℕ → QueryOptions
page_options offset = record {
  limit = pos page_size;
  offset = pos offset;
  order = codes "asc";
  sort_by = codes "id";
  time_field = [];
  t_start = none;
  t_end = none;
  statuses = [];
}

abbrev pub no_corrections : Corrections
no_corrections = record { mark_ready_ids = []; delete_zombies_ids = []; delete_stuck_ids = [] }

-- Phase 1, from an offset on.
unfoldable pub scan_from : ℕ → RecoveryEvents → Text → Vault → ℕ → Corrections → Result Corrections
unfolding scan_page
scan_from zero ev db_id v offset c = err Error.failure
scan_from (suc fuel) ev db_id v offset c =
    elim (get_entries ev.scan db_id (page_options offset) v.store) [
      | err e ↦ err e
      | ok [] ↦ ok c
      | ok (r ∷ rows) ↦
          scan_from fuel ev db_id v (offset + page_size) (scan_page ev v.files (r ∷ rows) c)
    ]

abbrev pub marked : RecoveryEvents → Text → List ℕ → Store → Store
marked ev db_id [] s = s
marked ev db_id (i ∷ is) s =
    store_after s (update_entries_status ev.mark_ready db_id (i ∷ is) ready s)

abbrev pub unzombied : RecoveryEvents → Text → List ℕ → Store → Store
unzombied ev db_id [] s = s
unzombied ev db_id (i ∷ is) s = store_after s (delete_entries ev.delete_zombies db_id (i ∷ is) s)

abbrev pub unstuck : RecoveryEvents → Text → List ℕ → Vault → Vault
unstuck ev db_id [] v = v
unstuck ev db_id (i ∷ is) v = (delete_multiple_safe ev.delete_stuck db_id (i ∷ is) v).1

-- Phase 2.
unfoldable pub apply_corrections : RecoveryEvents → Text → Corrections → Vault → Vault
apply_corrections ev db_id c v = unstuck ev db_id c.delete_stuck_ids (record v {
  store = unzombied ev db_id c.delete_zombies_ids (marked ev db_id c.mark_ready_ids v.store);
})

-- A database whose statistics cannot be read is skipped. There are enough pages for every row.
unfoldable pub entry_status_correction : RecoveryEvents → Text → Vault → Result (Unit {0}) × Vault
unfolding scan_from apply_corrections
entry_status_correction ev db_id v =
    if ev.stats_fails
    then (ok tt, v)
    else elim (scan_from (suc (length v.store.rows)) ev db_id v 0 no_corrections) [
      | err e ↦ (err e, v)
      | ok c ↦ (ok tt, if ev.dry_run then v else apply_corrections ev db_id c v)
    ]
