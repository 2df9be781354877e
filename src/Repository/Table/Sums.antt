-- ===== src/Repository/Table/Sums.antt =====
-- What each statement does to a sum over the rows.
use media_hub_oss.Prelude.{
  ℕ, ◌+◌, ◌≤◌, ◌<◌, ◌≡◌, refl, Bool, true, false, Option, none, some, List, [], ◌∷◌, arith, elem,
  sum_by, if◌then◌else◌, ◌&&◌,
}
use media_hub_oss.Prelude
use media_hub_oss.Repository.Types.{EntryStatus, queued, status_eq, Row}
use media_hub_oss.Repository.Table.{
  find_row, insert_row, update_row, set_statuses, delete_row, keep_rows, returned_rows, one,
  row_bytes, is_status, among, queued_among,
}
use media_hub_oss.Repository.Table.Order.{Above, update_row-Above', delete_row-Above'}

module _ (w : Row → ℕ) where
  pub sum_by-insert : (n : Row) (rs : List Row) → sum_by w (insert_row n rs) ≡ w n + sum_by w rs
  unfolding insert_row
  sum_by-insert n [] = refl
  sum_by-insert n (r ∷ rs) = ground (arith, sum_by-insert n rs)

  pub sum_by-update :
      (id m : ℕ) (f : Row → Row) (rs : List Row) (old : Row)
      → Above m rs
      → find_row id rs ≡ some old
      → sum_by w (update_row id f rs) + w old ≡ sum_by w rs + w (f old)
  unfolding update_row find_row
  sum_by-update id m f [] old a e = ground arith
  sum_by-update id m f (r ∷ rs) old a e =
      ground (arith, update_row-Above' id r.id f rs, sum_by-update id r.id f rs old)

  pub sum_by-update_missing :
      (id : ℕ) (f : Row → Row) (rs : List Row)
      → find_row id rs ≡ none
      → sum_by w (update_row id f rs) ≡ sum_by w rs
  unfolding update_row find_row
  sum_by-update_missing id f [] e = refl
  sum_by-update_missing id f (r ∷ rs) e = ground (arith, sum_by-update_missing id f rs)

  -- An update that leaves the weight of each row alone.
  pub sum_by-update_same :
      (id : ℕ) (f : Row → Row)
      → ((r : Row) → w (f r) ≡ w r)
      → (rs : List Row) → sum_by w (update_row id f rs) ≡ sum_by w rs
  unfolding update_row
  sum_by-update_same id f h [] = refl
  sum_by-update_same id f h (r ∷ rs) = ground (arith, h r, sum_by-update_same id f h rs)

  pub sum_by-delete :
      (id m : ℕ) (rs : List Row) (old : Row)
      → Above m rs
      → find_row id rs ≡ some old
      → sum_by w (delete_row id rs) + w old ≡ sum_by w rs
  unfolding delete_row find_row
  sum_by-delete id m [] old a e = ground arith
  sum_by-delete id m (r ∷ rs) old a e =
      ground (arith, delete_row-Above' id r.id rs, sum_by-delete id r.id rs old)

  pub sum_by-keep :
      (ids : List ℕ) (rs : List Row)
      → sum_by w (keep_rows ids rs) + sum_by w (returned_rows ids rs) ≡ sum_by w rs
  unfolding keep_rows returned_rows
  sum_by-keep ids [] = refl
  sum_by-keep ids (r ∷ rs) = ground (arith, sum_by-keep ids rs)

  pub weight-le-sum_by :
      (id : ℕ) (rs : List Row) (old : Row) → find_row id rs ≡ some old → w old ≤ sum_by w rs
  unfolding find_row
  weight-le-sum_by id [] old e = ground arith
  weight-le-sum_by id (r ∷ rs) old e = ground (arith, weight-le-sum_by id rs old)

pub set_statuses-row_bytes :
    (ids : List ℕ) (status : EntryStatus) (now : ℕ) (rs : List Row)
    → sum_by row_bytes (set_statuses ids status now rs) ≡ sum_by row_bytes rs
unfolding set_statuses
set_statuses-row_bytes ids status now [] = refl
set_statuses-row_bytes ids status now (r ∷ rs) =
    ground (arith, set_statuses-row_bytes ids status now rs)

pub set_statuses-one :
    (ids : List ℕ) (status : EntryStatus) (now : ℕ) (rs : List Row)
    → sum_by one (set_statuses ids status now rs) ≡ sum_by one rs
unfolding set_statuses
set_statuses-one ids status now [] = refl
set_statuses-one ids status now (r ∷ rs) = ground (arith, set_statuses-one ids status now rs)

-- A length is a sum of ones.
pub length-one : (rs : List Row) → Prelude.length rs ≡ sum_by one rs
length-one [] = refl
length-one (r ∷ rs) = ground (arith, length-one rs)

module _ (ids : List ℕ) (now : ℕ) where
  pub set_statuses-queued :
      (rs : List Row)
      → sum_by (is_status queued) (set_statuses ids queued now rs) + sum_by (queued_among ids) rs
        ≡ sum_by (is_status queued) rs + sum_by (among ids) rs
  unfolding set_statuses
  set_statuses-queued [] = refl
  set_statuses-queued (r ∷ rs) = ground (arith, set_statuses-queued rs)

  pub set_statuses-unqueued :
      (status : EntryStatus) (rs : List Row)
      → status_eq status queued ≡ false
      → sum_by (is_status queued) (set_statuses ids status now rs) + sum_by (queued_among ids) rs
        ≡ sum_by (is_status queued) rs
  unfolding set_statuses
  set_statuses-unqueued status [] h = refl
  set_statuses-unqueued status (r ∷ rs) h = ground (arith, set_statuses-unqueued status rs)

  pub queued_among-le : (rs : List Row) → sum_by (queued_among ids) rs ≤ sum_by (among ids) rs
  queued_among-le [] = omega arith
  queued_among-le (r ∷ rs) = ground (arith, queued_among-le rs)
