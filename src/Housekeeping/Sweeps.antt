-- ===== src/Housekeeping/Sweeps.antt =====
-- The two loops: what a round keeps, and why there are enough rounds.
use media_hub_oss.Prelude.{
  ℕ, zero, suc, ◌+◌, ◌<◌, ◌≤◌, ◌≡◌, refl, arith, Bool, true, false, Option, none, some, List, [],
  ◌∷◌, if◌then◌else◌, map, All, Result, ok, err, leb,
}
use media_hub_oss.Prelude.Text.{Text}
use media_hub_oss.Repository.Types.{Row}
use media_hub_oss.Repository.Table.{find_row}
use media_hub_oss.Prelude.Answers.{Answers, answer, refusal}
use media_hub_oss.Repository.Query.{QueryOptions, get_entries, get_entries-All}
use media_hub_oss.Repository.Consistency.{IsConsistent}
use media_hub_oss.Storage.{file_size}
use media_hub_oss.Deletion.{Vault, Around, delete_multiple_safe}
use media_hub_oss.Deletion.Safety.{delete_multiple_safe-IsConsistent, delete_multiple_safe-other}
use media_hub_oss.Deletion.Shrinking.{delete_multiple_safe-rows}
use media_hub_oss.Housekeeping.{
  filter_deletable_entries, row_id, delete_entries_batch, Weather, Progress, oldest, sweep_batch,
  sweep_round, max_age_sweep, disk_space_sweep, just_enough, no_row_deleted, no_space_freed, all_of,
  less, keys_left,
}
use media_hub_oss.Housekeeping.Deletable.{
  Chosen, Known, rows-Known, filter_deletable-Chosen, just_enough-All, is_deletable,
  in_flight_unchosen,
}

-- A sweep ends, and leaves a vault with the property.
pub data Ends (P : Vault → Type 0) : Option Progress → Type 0 where
  ended : {p : Progress} → P p.vault → Ends P (some p)

pub Ends-if :
    (P : Vault → Type 0) (b : Bool) (x y : Option Progress)
    → Ends P x
    → (b ≡ false → Ends P y)
    → Ends P (if b then x else y)
Ends-if P true x y h k = h
Ends-if P false x y h k = k refl

-- The database is consistent, and an entry has the row, the file and the preview that it had.
pub record Keeps (i : ℕ) (v w : Vault) : Type 0 where
  pub consistent : IsConsistent w.store
  pub row : find_row i w.store.rows ≡ find_row i v.store.rows
  pub file : file_size i w.files ≡ file_size i v.files
  pub preview : file_size i w.previews ≡ file_size i v.previews

-- A batch that a loop goes on after has taken a row away.
batch-rows :
    (around : Around) (db_id : Text) (rs : List Row) (w : Vault)
    → let ((deleted, freed, bad), w') = delete_entries_batch around db_id rs w in
      keys_left w' + deleted ≤ keys_left w
unfolding delete_entries_batch
batch-rows around db_id [] w = omega arith
batch-rows around db_id (r ∷ rs) w = delete_multiple_safe-rows around db_id (map row_id (r ∷ rs)) w

abbrev StopsAtNone : (ℕ × ℕ × Bool → Bool) → Type 0
StopsAtNone stops = (b : ℕ × ℕ × Bool) → stops b ≡ false → 0 < b.0

no_row_deleted-StopsAtNone : StopsAtNone no_row_deleted
no_row_deleted-StopsAtNone b h = ground (arith, h)

no_space_freed-StopsAtNone : StopsAtNone no_space_freed
no_space_freed-StopsAtNone b h = ground (arith, h)

module _ (i : ℕ) (v : Vault) (in_flight : is_deletable (find_row i v.store.rows) ≡ false) where
  pub unchanged : IsConsistent v.store → Keeps i v v
  unchanged h = record { consistent = h; row = refl; file = refl; preview = refl }

  batch-Keeps :
      (around : Around) (db_id : Text) (rs : List Row) (w : Vault)
      → All (Chosen w.store.rows) rs
      → Keeps i v w
      → Keeps i v (delete_entries_batch around db_id rs w).1
  unfolding delete_entries_batch
  batch-Keeps around db_id [] w c k = k
  batch-Keeps around db_id (r ∷ rs) w c k = record {
    consistent = delete_multiple_safe-IsConsistent around db_id ids w k.consistent;
    row = cc (other.0, k.row);
    file = cc (other.1, k.file);
    preview = cc (other.2, k.preview);
  }
    where
      ids : List ℕ
      ids = map row_id (r ∷ rs)

      still : is_deletable (find_row i w.store.rows) ≡ false
      still = cc (k.row, in_flight)

      other :
          (find_row i (delete_multiple_safe around db_id ids w).1.store.rows
            ≡ find_row i w.store.rows)
          × (file_size i (delete_multiple_safe around db_id ids w).1.files ≡ file_size i w.files)
          × (file_size i (delete_multiple_safe around db_id ids w).1.previews
              ≡ file_size i w.previews)
      other =
          delete_multiple_safe-other around db_id ids w i
            (in_flight_unchosen w.store.rows (r ∷ rs) i still c)

  module _ (around : Around) (db_id : Text) (stops : ℕ × ℕ × Bool → Bool) (p : Progress)
      (continue : ℕ → Progress → Option Progress) (stops_at_none : StopsAtNone stops)
      (onward : (freed : ℕ) (q : Progress)
        → keys_left q.vault < keys_left p.vault
        → Keeps i v q.vault
        → Ends (Keeps i v) (continue freed q)) where
    sweep_batch-Keeps :
        (rs : List Row)
        → All (Chosen p.vault.store.rows) rs
        → Keeps i v p.vault
        → Ends (Keeps i v) (sweep_batch around db_id stops p continue rs)
    unfolding sweep_batch
    sweep_batch-Keeps [] c k = ended k
    sweep_batch-Keeps (r ∷ rs) c k =
        Ends-if (Keeps i v) _ _ _ (ended after) (λ e. onward _ _ (fewer e) after)
      where
        after : Keeps i v (delete_entries_batch around db_id (r ∷ rs) p.vault).1
        after = batch-Keeps around db_id (r ∷ rs) p.vault c k

        fewer :
            stops (delete_entries_batch around db_id (r ∷ rs) p.vault).0 ≡ false
            → keys_left (delete_entries_batch around db_id (r ∷ rs) p.vault).1 < keys_left p.vault
        fewer e = omega (arith, stops_at_none _ e, batch-rows around db_id (r ∷ rs) p.vault)

    sweep_round-Keeps :
        (choose : List Row → List Row) (r : Result (List Row))
        → ((P : Row → Type 0) (rs : List Row) → All P rs → All P (choose rs))
        → Keeps i v p.vault
        → Answers (All (Known p.vault.store.rows)) r
        → Ends (Keeps i v) (sweep_round around db_id stops choose p continue r)
    unfolding sweep_round
    sweep_round-Keeps choose (ok rs) f k (answer h) =
        sweep_batch-Keeps (choose (filter_deletable_entries rs))
          (f (Chosen p.vault.store.rows) _ (filter_deletable-Chosen p.vault.store.rows rs h)) k
    sweep_round-Keeps choose (err e) f k refusal = ended k

  known :
      (w : Weather) (db_id : Text) (o : QueryOptions) (n : ℕ) (p : Progress)
      → Keeps i v p.vault
      → Answers (All (Known p.vault.store.rows)) (get_entries (w.fetch n) db_id o p.vault.store)
  known w db_id o n p k =
      get_entries-All (Known p.vault.store.rows) (w.fetch n) db_id o p.vault.store
        (rows-Known p.vault.store.rows k.consistent.ordered)

  pub max_age_sweep-Keeps :
      (w : Weather) (db_id : Text) (cutoff n : ℕ) (p : Progress)
      → keys_left p.vault < n
      → Keeps i v p.vault
      → Ends (Keeps i v) (max_age_sweep w db_id cutoff n p)
  unfolding max_age_sweep
  max_age_sweep-Keeps w db_id cutoff zero p l k = ground (arith, l)
  max_age_sweep-Keeps w db_id cutoff (suc n) p l k =
      sweep_round-Keeps (w.around n) db_id no_row_deleted p _ no_row_deleted-StopsAtNone
        (λ freed q m. max_age_sweep-Keeps w db_id cutoff n q (omega (arith, l, m))) all_of _
        (λ P rs h. h) k (known w db_id (oldest (some cutoff)) n p k)

  pub disk_space_sweep-Keeps :
      (w : Weather) (db_id : Text) (limit n current : ℕ) (p : Progress)
      → keys_left p.vault < n
      → Keeps i v p.vault
      → Ends (Keeps i v) (disk_space_sweep w db_id limit n current p)
  unfolding disk_space_sweep
  disk_space_sweep-Keeps w db_id limit zero current p l k = ground (arith, l)
  disk_space_sweep-Keeps w db_id limit (suc n) current p l k =
      Ends-if (Keeps i v) (leb current limit) _ _ (ended k) (λ e.
        sweep_round-Keeps (w.around n) db_id no_space_freed p _ no_space_freed-StopsAtNone
          (λ freed q m.
            disk_space_sweep-Keeps w db_id limit n (less current freed) q (omega (arith, l, m)))
          (just_enough current limit 0) _ (λ P rs. just_enough-All P current limit rs 0) k
          (known w db_id (oldest none) n p k))
