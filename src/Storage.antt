-- ===== src/Storage.antt =====
-- internal/storage/localstorage: the files of one media database, each kind as a table from entry
-- ids to sizes. `broken` says for which ids the file system refuses to remove a file.
pub mod Removal
use media_hub_oss.Prelude.{
  ℕ, Bool, true, false, Option, none, some, List, [], ◌∷◌, ◌==◌, if◌then◌else◌,
}

abbrev pub Files : Type 0
Files = List (ℕ × ℕ)

-- Stat: the size of a file, or none where there is none.
unfoldable pub file_size : ℕ → Files → Option ℕ
file_size id [] = none
file_size id ((i, n) ∷ fs) = if i == id then some n else file_size id fs

unfoldable pub drop_file : ℕ → Files → Files
drop_file id [] = []
drop_file id ((i, n) ∷ fs) = if i == id then drop_file id fs else (i, n) ∷ drop_file id fs

-- writeFileStream renames a complete file over the old one.
unfoldable pub write_file : ℕ → ℕ → Files → Files
unfolding drop_file
write_file id size fs = (id, size) ∷ drop_file id fs

abbrev pub has_file : ℕ → Files → Bool
has_file id fs = elim (file_size id fs) [ none ↦ false | some n ↦ true ]

-- removeFile: a file that is not there counts as removed.
unfoldable pub remove_file : (ℕ → Bool) → ℕ → Files → Bool × Files
unfolding drop_file file_size
remove_file broken id fs =
    if has_file id fs
    then (if broken id then (false, fs) else (true, drop_file id fs))
    else (true, fs)

pub record BulkDeleteResult : Type 0 where
  pub success : List ℕ
  pub failed : List ℕ

-- deleteMultiple, with the result that DeleteMultiple makes of it; its error is that `failed` is
-- not empty.
unfoldable pub delete_multiple : (ℕ → Bool) → List ℕ → Files → BulkDeleteResult × Files
delete_multiple broken [] fs = (record { success = []; failed = [] }, fs)
delete_multiple broken (id ∷ ids) fs =
    let (removed, fs') = remove_file broken id fs in
    let (rest, fs'') = delete_multiple broken ids fs' in
    (
      if removed
          then record { success = id ∷ rest.success; failed = rest.failed }
          else record { success = rest.success; failed = id ∷ rest.failed },
      fs'',
    )
