-- ===== src/Repository/Consistency.antt =====
-- The statistics of a database agree with its entry table, and every operation keeps it so.
pub mod Adding
pub mod Changing
pub mod Removing
pub mod Histories
use media_hub_oss.Prelude.{
  ℕ, ◌+◌, ◌≤◌, ◌<◌, ◌≡◌, Bool, true, false, Result, ok, err, Error, ◌>>=◌, ◌>>◌, require, call,
  arith, refl, Option, some, none, or_error,
}
use media_hub_oss.Repository.Types.{queued, Entry, Store}
use media_hub_oss.Repository.Table.{
  row_count, total_bytes, count_status, two63, size_delta, apply_delta,
}
use media_hub_oss.Repository.Table.Order.{Above, AtMost}

pub record IsConsistent (s : Store) : Type 0 where
  pub ordered : Above 0 s.rows
  pub bounded : AtMost s.last_id s.rows
  pub counted : s.stats.entry_count ≡ row_count s.rows
  pub measured : s.stats.total_disk_space_bytes ≡ total_bytes s.rows
  pub queue_counted : s.stats.queued_count ≡ count_status queued s.rows
  -- Below 2^63 bytes, so that the int64 columns do not wrap.
  pub fits : s.stats.total_disk_space_bytes < two63

-- There is room for the entry's bytes besides those recorded.
abbrev pub HasRoom : Entry → Store → Type 0
HasRoom e s = s.stats.total_disk_space_bytes + e.size + e.preview_size < two63

-- The store that an operation leaves has the property, or the operation fails and, its transaction
-- rolled back, leaves the store that it met.
pub data Leaves {ℓ} {A : Type 0} (P : Store → Type ℓ) : Result (A × Store) → Type ℓ where
  done : {a : A} {s : Store} → P s → Leaves P (ok (a, s))
  failed : {e : Error} → Leaves P (err e)

-- Through the steps of an operation, one rule for each kind of step.
module _ {ℓ} {P : Store → Type ℓ} {A : Type 0} where
  pub Leaves-bind :
      {B : Type 0} (m : Result B) (k : B → Result (A × Store))
      → ((b : B) → Leaves P (k b))
      → Leaves P (m >>= k)
  Leaves-bind (ok b) k h = h b
  Leaves-bind (err e) k h = failed

  pub Leaves-require :
      (b : Bool) (e : Error) (r : Result (A × Store))
      → (b ≡ true → Leaves P r)
      → Leaves P (require b e >> r)
  Leaves-require true e r h = h refl
  Leaves-require false e r h = failed

  pub Leaves-call : (b : Bool) (r : Result (A × Store)) → Leaves P r → Leaves P (call b >> r)
  Leaves-call true r h = failed
  Leaves-call false r h = h

  pub Leaves-or_error :
      {B : Type 0} (o : Option B) (e : Error) (k : B → Result (A × Store))
      → ((b : B) → o ≡ some b → Leaves P (k b))
      → Leaves P (or_error o e >>= k)
  Leaves-or_error none e k h = failed
  Leaves-or_error (some b) e k h = h b refl

pub ruleset leaves = (done, failed, Leaves-require, Leaves-call, Leaves-or_error, Leaves-bind)
