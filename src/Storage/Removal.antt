-- ===== src/Storage/Removal.antt =====
-- What the removals take away and what they leave.
use media_hub_oss.Prelude.{
  ℕ, ◌≡◌, refl, arith, Bool, true, false, none, some, List, [], ◌∷◌, ◌==◌, if◌then◌else◌, elem,
  ◌||◌,
}
use media_hub_oss.Storage.{Files, file_size, drop_file, write_file, remove_file, delete_multiple}

pub file_size-drop :
    (id i : ℕ) (fs : Files)
    → file_size i (drop_file id fs) ≡ (if id == i then none else file_size i fs)
unfolding file_size drop_file
file_size-drop id i [] = ground arith
file_size-drop id i ((j, n) ∷ fs) = ground (arith, file_size-drop id i fs)

pub file_size-write :
    (id i size : ℕ) (fs : Files)
    → file_size i (write_file id size fs) ≡ (if id == i then some size else file_size i fs)
unfolding file_size write_file
file_size-write id i size fs = ground (arith, file_size-drop id i fs)

pub remove_file-other :
    (broken : ℕ → Bool) (id i : ℕ) (fs : Files)
    → (id == i) ≡ false
    → file_size i (remove_file broken id fs).1 ≡ file_size i fs
unfolding remove_file
remove_file-other broken id i fs h = ground (arith, file_size-drop id i fs)

remove_file_self :
    (broken : ℕ → Bool) (id : ℕ) (fs : Files)
    → (remove_file broken id fs).0 ≡ true
    → file_size id (remove_file broken id fs).1 ≡ none
unfolding remove_file
remove_file_self broken id fs h = ground (arith, file_size-drop id id fs)

remove_file-none :
    (broken : ℕ → Bool) (id i : ℕ) (fs : Files)
    → file_size i fs ≡ none
    → file_size i (remove_file broken id fs).1 ≡ none
unfolding remove_file
remove_file-none broken id i fs h = ground (arith, file_size-drop id i fs)

-- Files of other entries stay.
pub delete_multiple-other :
    (broken : ℕ → Bool) (ids : List ℕ) (i : ℕ) (fs : Files)
    → elem i ids ≡ false
    → file_size i (delete_multiple broken ids fs).1 ≡ file_size i fs
unfolding delete_multiple
delete_multiple-other broken [] i fs h = refl
delete_multiple-other broken (id ∷ ids) i fs h = ground (
  arith,
  delete_multiple-other broken ids i (remove_file broken id fs).1,
  remove_file-other broken id i fs,
)

pub delete_multiple-none :
    (broken : ℕ → Bool) (ids : List ℕ) (i : ℕ) (fs : Files)
    → file_size i fs ≡ none
    → file_size i (delete_multiple broken ids fs).1 ≡ none
unfolding delete_multiple
delete_multiple-none broken [] i fs h = h
delete_multiple-none broken (id ∷ ids) i fs h =
    delete_multiple-none broken ids i (remove_file broken id fs).1
      (remove_file-none broken id i fs h)

-- A file that is reported as deleted is gone.
pub delete_multiple-success :
    (broken : ℕ → Bool) (ids : List ℕ) (i : ℕ) (fs : Files)
    → elem i (delete_multiple broken ids fs).0.success ≡ true
    → file_size i (delete_multiple broken ids fs).1 ≡ none
unfolding delete_multiple
delete_multiple-success broken [] i fs h = ground arith
delete_multiple-success broken (id ∷ ids) i fs h = ground (
  arith,
  delete_multiple-success broken ids i (remove_file broken id fs).1,
  delete_multiple-none broken ids i (remove_file broken id fs).1,
  remove_file_self broken id fs,
)

-- Every id is reported, as deleted or as failed, and no other is.
pub delete_multiple-reports :
    (broken : ℕ → Bool) (ids : List ℕ) (i : ℕ) (fs : Files)
    → let r = (delete_multiple broken ids fs).0 in
      (elem i r.success || elem i r.failed) ≡ elem i ids
unfolding delete_multiple
delete_multiple-reports broken [] i fs = refl
delete_multiple-reports broken (id ∷ ids) i fs =
    ground (arith, delete_multiple-reports broken ids i (remove_file broken id fs).1)
