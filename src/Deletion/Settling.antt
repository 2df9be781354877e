-- ===== src/Deletion/Settling.antt =====
-- What the phases of a deletion do to the rows, and the ways that a deletion can go.
use media_hub_oss.Prelude.{
  ℕ, ◌≡◌, refl, arith, Bool, true, false, Option, none, some, List, [], ◌∷◌, if◌then◌else◌, elem,
  Result, ok, err,
}
use media_hub_oss.Prelude.Text.{Text}
use media_hub_oss.Repository.Types.{
  EntryStatus, ready, error, status_eq, Row, Store, Env, DeletedEntryMeta, deleting,
}
use media_hub_oss.Repository.Table.{find_row}
use media_hub_oss.Repository.Table.Rows.{find_row-set_statuses, find_row-keep}
use media_hub_oss.Repository.Entries.{
  restatused, update_entries_status, without_all, delete_entries,
}
use media_hub_oss.Repository.Consistency.{IsConsistent, Leaves, done, failed, leaves}
use media_hub_oss.Repository.Consistency.Changing.{update_entries_status-IsConsistent}
use media_hub_oss.Repository.Consistency.Removing.{delete_entries-IsConsistent}
use media_hub_oss.Deletion.{
  Vault, delete_multiple_safe, delete_locked, Around, commit_deleted, roll_back_failed, store_after,
}

abbrev pub is_ready : Option Row → Bool
is_ready none = false
is_ready (some r) = status_eq r.status ready

-- Between two stores, the rows of `ids` stop being ready and the others stay.
abbrev pub Settles : List ℕ → Store → Store → Type 0
Settles ids s t =
    (i : ℕ)
    → if elem i ids
      then is_ready (find_row i t.rows) ≡ false
      else find_row i t.rows ≡ find_row i s.rows

restatused-Settles :
    (env : Env) (ids : List ℕ) (st : EntryStatus) (s : Store)
    → status_eq st ready ≡ false
    → Settles ids s (restatused env ids st s)
unfolding restatused
restatused-Settles env ids st s h i = ground (arith, find_row-set_statuses ids st env.now i s.rows)

without_all-Settles : (ids : List ℕ) (s : Store) → Settles ids s (without_all ids s)
unfolding without_all
without_all-Settles ids s i = ground (arith, find_row-keep ids i s.rows)

Settles-refl : (s : Store) → Settles [] s s
Settles-refl s i = refl

pub update_entries_status-Settles :
    (env : Env) (db_id : Text) (ids : List ℕ) (st : EntryStatus) (s : Store)
    → status_eq st ready ≡ false
    → Leaves (Settles ids s) (update_entries_status env db_id ids st s)
unfolding update_entries_status
update_entries_status-Settles env db_id [] st s h =
    search (leaves, Settles-refl) depth 16 fits 100000
update_entries_status-Settles env db_id (j ∷ js) st s h =
    search (leaves, restatused-Settles env (j ∷ js) st s h) depth 16 fits 100000

delete_entries-Settles :
    (env : Env) (db_id : Text) (ids : List ℕ) (s : Store)
    → Leaves (Settles ids s) (delete_entries env db_id ids s)
unfolding delete_entries
delete_entries-Settles env db_id [] s = search leaves depth 16 fits 100000
delete_entries-Settles env db_id (j ∷ js) s =
    search (leaves, without_all-Settles (j ∷ js) s) depth 16 fits 100000

-- A predicate on stores, met before a step and kept by it, holds of the store after the step.
pub Leaves-after :
    {A : Type 0} (P : Store → Type 0) (s : Store) (r : Result (A × Store))
    → P s
    → Leaves P r
    → P (store_after s r)
Leaves-after P s r h (done p) = p
Leaves-after P s r h failed = h

abbrev pub Within : List ℕ → List ℕ → Type 0
Within sub ids = (i : ℕ) → elem i sub ≡ true → elem i ids ≡ true

-- Steps on some of the ids, one after the other.
Settles-trans :
    (sub ids : List ℕ) (s t u : Store)
    → Within sub ids
    → Settles ids s t
    → Settles sub t u
    → Settles ids s u
Settles-trans sub ids s t u w h k i = ground (arith, w i, h i, k i)

Leaves-map :
    {A : Type 0} (P Q : Store → Type 0) (r : Result (A × Store))
    → ((s : Store) → P s → Q s)
    → Leaves P r
    → Leaves Q r
Leaves-map P Q r f (done p) = done (f _ p)
Leaves-map P Q r f failed = failed

commit_deleted-keeps :
    (P : Store → Type 0) (env : Env) (db_id : Text) (ids : List ℕ) (s : Store)
    → P s
    → Leaves P (delete_entries env db_id ids s)
    → P (commit_deleted env db_id ids s).1
unfolding commit_deleted
commit_deleted-keeps P env db_id [] s h k = h
commit_deleted-keeps P env db_id (i ∷ is) s h k = kept (delete_entries env db_id (i ∷ is) s) k
  where
    kept :
        (r : Result (List DeletedEntryMeta × Store))
        → Leaves P r
        → P
            (elim r as (λ x. (List DeletedEntryMeta × Bool) × Store) [
              | err e ↦ (([], true), s)
              | ok (gone, t) ↦ ((gone, false), t)
            ]).1
    kept r (done p) = p
    kept r failed = h

roll_back_failed-keeps :
    (P : Store → Type 0) (env : Env) (db_id : Text) (ids : List ℕ) (s : Store)
    → P s
    → Leaves P (update_entries_status env db_id ids error s)
    → P (roll_back_failed env db_id ids s)
unfolding roll_back_failed
roll_back_failed-keeps P env db_id [] s h k = h
roll_back_failed-keeps P env db_id (i ∷ is) s h k = Leaves-after P s _ h k

-- The last phase for lists of ids among those of the first.
unfoldable pub finished : Around → Text → List ℕ → List ℕ → Store → Store
finished around db_id good bad s =
    roll_back_failed around.rollback db_id bad (commit_deleted around.commit db_id good s).1

pub finished-Settles :
    (around : Around) (db_id : Text) (good bad ids : List ℕ) (s t : Store)
    → Within good ids
    → Within bad ids
    → Settles ids s t
    → Settles ids s (finished around db_id good bad t)
unfolding finished
finished-Settles around db_id good bad ids s t w w' h =
    roll_back_failed-keeps (Settles ids s) around.rollback db_id bad _ committed (
      Leaves-map (Settles bad (commit_deleted around.commit db_id good t).1) (Settles ids s) _
        (λ v. Settles-trans bad ids s (commit_deleted around.commit db_id good t).1 v w' committed)
        (update_entries_status-Settles around.rollback db_id bad error _ refl))
  where
    committed : Settles ids s (commit_deleted around.commit db_id good t).1
    committed = commit_deleted-keeps (Settles ids s) around.commit db_id good t h (
        Leaves-map (Settles good t) (Settles ids s) _ (λ v. Settles-trans good ids s t v w h)
          (delete_entries-Settles around.commit db_id good t))

pub finished-IsConsistent :
    (around : Around) (db_id : Text) (good bad : List ℕ) (s : Store)
    → IsConsistent s
    → IsConsistent (finished around db_id good bad s)
unfolding finished
finished-IsConsistent around db_id good bad s h =
    roll_back_failed-keeps IsConsistent around.rollback db_id bad _ committed
      (update_entries_status-IsConsistent around.rollback db_id bad error _ committed)
  where
    committed : IsConsistent (commit_deleted around.commit db_id good s).1
    committed =
        commit_deleted-keeps IsConsistent around.commit db_id good s h
          (delete_entries-IsConsistent around.commit db_id good s h)

abbrev pub Outcome : Type 0
Outcome = (List DeletedEntryMeta × Bool) × Vault

-- A deletion stops at the lock, or goes on with the store that the lock leaves.
pub delete_multiple_safe-cases :
    (Q : Store → Type 0) (P : Outcome → Type 0) (around : Around) (db_id : Text) (ids : List ℕ)
    (v : Vault)
    → Leaves Q (update_entries_status around.lock db_id ids deleting v.store)
    → P (([], true), v)
    → ((locked : Store) → Q locked → P (delete_locked around db_id ids v locked))
    → P (delete_multiple_safe around db_id ids v)
unfolding delete_multiple_safe
delete_multiple_safe-cases Q P around db_id ids v l stop go =
    split (update_entries_status around.lock db_id ids deleting v.store) l
  where
    split :
        (r : Result (Unit {0} × Store))
        → Leaves Q r
        → P (elim r as (λ x. Outcome) [
          | err e ↦ (([], true), v)
          | ok (_, locked) ↦ delete_locked around db_id ids v locked
        ])
    split r (done q) = go _ q
    split r failed = stop
