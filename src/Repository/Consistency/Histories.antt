-- ===== src/Repository/Consistency/Histories.antt =====
-- Any history of operations on one database, by any number of clients: each operation is one
-- transaction, so a history is a sequence of them.
use media_hub_oss.Prelude.{ℕ, arith, ok, err, List, [], ◌∷◌, Result}
use media_hub_oss.Prelude.Text.{Text}
use media_hub_oss.Repository.Types.{EntryStatus, Store, Env, Entry, Database, CustomFieldDef}
use media_hub_oss.Repository.Entries.{
  create_entry, update_entry, update_entry_metadata, enqueue_entry, update_entries_status,
  delete_entry, delete_entries, claim_queued_entry,
}
use media_hub_oss.Repository.Consistency.{IsConsistent, HasRoom, Leaves, done, failed}
use media_hub_oss.Repository.Consistency.Adding.{create_entry-IsConsistent}
use media_hub_oss.Repository.Consistency.Changing.{
  update_entry-IsConsistent, update_entry_metadata-IsConsistent, enqueue_entry-IsConsistent,
  update_entries_status-IsConsistent, claim_queued_entry-IsConsistent,
}
use media_hub_oss.Repository.Consistency.Removing.{
  delete_entry-IsConsistent, delete_entries-IsConsistent,
}

pub data Operation : Type 0 where
  create : Database → Entry → Operation
  update : Entry → Operation
  update_metadata : Entry → Operation
  enqueue : Entry → ℕ → Operation
  set_status : List ℕ → EntryStatus → Operation
  claim : ℕ → Operation
  delete : ℕ → Operation
  delete_many : List ℕ → Operation

-- After a failed transaction the store is the one before it.
abbrev after : {A : Type 0} → Store → Result (A × Store) → Store
after s (ok (a, s')) = s'
after s (err e) = s

unfoldable pub step : Text → Store → Env × Operation → Store
step id s (env, create db entry) = after s (create_entry env db entry s)
step id s (env, update entry) = after s (update_entry env id entry s)
step id s (env, update_metadata entry) = after s (update_entry_metadata env id entry s)
step id s (env, enqueue entry max) = after s (enqueue_entry env id entry max s)
step id s (env, set_status ids status) = after s (update_entries_status env id ids status s)
step id s (env, claim i) = after s (claim_queued_entry env id i s)
step id s (env, delete i) = after s (delete_entry env id i s)
step id s (env, delete_many ids) = after s (delete_entries env id ids s)

unfoldable pub run : Text → Store → List (Env × Operation) → Store
run id s [] = s
run id s (o ∷ os) = run id (step id s o) os

-- A new database: an empty table and no statistics.
unfoldable pub fresh : List CustomFieldDef → Store
fresh fields = record {
  stats = record { entry_count = 0; total_disk_space_bytes = 0; queued_count = 0 };
  rows = [];
  last_id = 0;
  custom_fields = fields;
}

abbrev pub OperationFits : Store → Operation → Type 0
OperationFits s (create db entry) = HasRoom entry s
OperationFits s (update entry) = HasRoom entry s
OperationFits s (enqueue entry max) = HasRoom entry s
OperationFits s _ = Unit {0}

-- Every operation of the history has room for the bytes that it records.
abbrev pub Fits : Text → Store → List (Env × Operation) → Type 0
Fits id s [] = Unit {0}
Fits id s ((env, o) ∷ os) = OperationFits s o × Fits id (step id s (env, o)) os

after-IsConsistent :
    {A : Type 0} (s : Store) {r : Result (A × Store)}
    → IsConsistent s
    → Leaves IsConsistent r
    → IsConsistent (after s r)
after-IsConsistent s v (done h) = h
after-IsConsistent s v failed = v

step-IsConsistent :
    (id : Text) (s : Store) (env : Env) (o : Operation)
    → IsConsistent s
    → OperationFits s o
    → IsConsistent (step id s (env, o))
unfolding step
step-IsConsistent id s env (create db entry) v h =
    after-IsConsistent s v (create_entry-IsConsistent env db entry s v h)
step-IsConsistent id s env (update entry) v h =
    after-IsConsistent s v (update_entry-IsConsistent env id entry s v h)
step-IsConsistent id s env (update_metadata entry) v h =
    after-IsConsistent s v (update_entry_metadata-IsConsistent env id entry s v)
step-IsConsistent id s env (enqueue entry max) v h =
    after-IsConsistent s v (enqueue_entry-IsConsistent env id entry max s v h)
step-IsConsistent id s env (set_status ids status) v h =
    after-IsConsistent s v (update_entries_status-IsConsistent env id ids status s v)
step-IsConsistent id s env (claim i) v h =
    after-IsConsistent s v (claim_queued_entry-IsConsistent env id i s v)
step-IsConsistent id s env (delete i) v h =
    after-IsConsistent s v (delete_entry-IsConsistent env id i s v)
step-IsConsistent id s env (delete_many ids) v h =
    after-IsConsistent s v (delete_entries-IsConsistent env id ids s v)

run-IsConsistent :
    (id : Text) (s : Store) (os : List (Env × Operation))
    → IsConsistent s
    → Fits id s os
    → IsConsistent (run id s os)
unfolding run
run-IsConsistent id s [] v h = v
run-IsConsistent id s ((env, o) ∷ os) v h =
    run-IsConsistent id (step id s (env, o)) os (step-IsConsistent id s env o v h.0) h.1

fresh-IsConsistent : (fields : List CustomFieldDef) → IsConsistent (fresh fields)
unfolding fresh
fresh-IsConsistent fields = omega arith

-- From a new database, any history of creations, updates, metadata edits, enqueues, bulk status
-- changes, claims and deletions, whichever of them fail, leaves the entry count, the byte total and
-- the queued counter equal to what the entry table holds, as long as the recorded bytes stay below
-- 2^63.
pub run-fresh-IsConsistent :
    (id : Text) (fields : List CustomFieldDef) (os : List (Env × Operation))
    → Fits id (fresh fields) os
    → IsConsistent (run id (fresh fields) os)
run-fresh-IsConsistent id fields os h =
    run-IsConsistent id (fresh fields) os (fresh-IsConsistent fields) h
