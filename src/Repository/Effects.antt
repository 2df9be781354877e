-- ===== src/Repository/Effects.antt =====
-- What an operation on one entry does to its row, and that it leaves the other rows alone.
use media_hub_oss.Prelude.{
  ℕ, ◌≡◌, refl, arith, Bool, true, false, Option, none, some, List, [], ◌∷◌, ◌==◌, if◌then◌else◌,
  elem, not,
}
use media_hub_oss.Prelude.Text.{Text}
use media_hub_oss.Repository.Types.{
  EntryStatus, queued, Row, Store, Env, Entry, Database, Value, Column, DeletedEntryMeta,
}
use media_hub_oss.Repository.Table.{find_row}
use media_hub_oss.Repository.Table.Rows.{
  map_row, with_status, find_row-update, find_row-insert, find_row-delete, find_row-set_statuses,
}
use media_hub_oss.Repository.Entries.{
  create_entry, created, new_row, new_id, update_entry, rewritten, write_entry, enqueue_entry,
  delete_entry, without, update_entries_status, restatused, is_some, none_of_not-is_some,
}
use media_hub_oss.Prelude.Answers.{Answers, answers}
use media_hub_oss.Repository.Queue.{Works, is_ok}

-- Does the row exist, with such a status?
abbrev pub status_in : (EntryStatus → Bool) → Option Row → Bool
status_in p none = false
status_in p (some r) = p r.status

-- The other rows are those of before.
abbrev pub Others : ℕ → Store → Store → Type 0
Others i s t = (j : ℕ) → (i == j) ≡ false → find_row j t.rows ≡ find_row j s.rows

abbrev pub Becomes : ℕ → EntryStatus → Store → Store → Type 0
Becomes i st s t =
    ((p : EntryStatus → Bool) → status_in p (find_row i t.rows) ≡ p st) × Others i s t

write_entry-id : (env : Env) (e : Entry) (r : Row) → (write_entry env e r).id ≡ r.id
unfolding write_entry
write_entry-id env e r = refl

rewritten-Becomes :
    (env : Env) (entry : Entry) (old : Row) (s : Store)
    → find_row entry.id s.rows ≡ some old
    → Becomes entry.id entry.status s (rewritten env entry old s)
unfolding rewritten write_entry
rewritten-Becomes env entry old s e =
    (λ p. ground (arith, e, self), λ j h. ground (arith, h, found j))
  where
    found :
        (j : ℕ)
        → find_row j (rewritten env entry old s).rows ≡ (
            if entry.id == j
            then map_row (write_entry env entry) (find_row j s.rows)
            else find_row j s.rows)
    found j = find_row-update entry.id j (write_entry env entry) s.rows (write_entry-id env entry)

    self : find_row entry.id (rewritten env entry old s).rows ≡ some (write_entry env entry old)
    self = ground (arith, e, found entry.id)

created-Becomes :
    (env : Env) (entry : Entry) (custom : List (Column × Value)) (s : Store)
    → find_row (new_id entry s) s.rows ≡ none
    → Becomes (new_id entry s) entry.status s (created env entry custom s)
unfolding created new_row
created-Becomes env entry custom s e =
    (λ p. ground (arith, found (new_id entry s)), λ j h. ground (arith, h, found j))
  where
    n : Row
    n = new_row env entry (new_id entry s) custom

    found :
        (j : ℕ)
        → find_row j (created env entry custom s).rows ≡ (
            if new_id entry s == j
            then some (new_row env entry (new_id entry s) custom)
            else find_row j s.rows)
    found j = find_row-insert (new_row env entry (new_id entry s) custom) j s.rows e

without-Others :
    (id : ℕ) (old : Row) (s : Store)
    → (find_row id (without id old s).rows ≡ none) × Others id s (without id old s)
unfolding without
without-Others id old s = (
  ground (arith, find_row-delete id id s.rows),
  λ j h. ground (arith, h, find_row-delete id j s.rows),
)

-- The fate of one row under a bulk change of that row alone.
restatused-Becomes :
    (env : Env) (id : ℕ) (st : EntryStatus) (s : Store)
    → ((p : EntryStatus → Bool)
        → p st ≡ false
        → status_in p (find_row id (restatused env (id ∷ []) st s).rows) ≡ false)
      × Others id s (restatused env (id ∷ []) st s)
unfolding restatused
restatused-Becomes env id st s =
    (λ p h. ground (arith, h, found id), λ j h. ground (arith, h, found j))
  where
    found :
        (j : ℕ)
        → find_row j (restatused env (id ∷ []) st s).rows ≡ (
            if elem j (id ∷ [])
            then with_status st env.now (find_row j s.rows)
            else find_row j s.rows)
    found j = find_row-set_statuses (id ∷ []) st env.now j s.rows

-- The operations, where they do not fail.
pub create_entry-Becomes :
    (env : Env) (db : Database) (entry : Entry) (s : Store)
    → Answers
        (λ (a : Entry × Store). (find_row a.0.id s.rows ≡ none) × Becomes a.0.id entry.status s a.1)
        (create_entry env db entry s)
unfolding create_entry
create_entry-Becomes env db entry s = search (answers, new_entry) depth 24 fits 100000
  where
    new_entry :
        (custom : List (Column × Value))
        → not (is_some (find_row (new_id entry s) s.rows)) ≡ true
        → (find_row (new_id entry s) s.rows ≡ none)
          × Becomes (new_id entry s) entry.status s (created env entry custom s)
    new_entry custom h =
        let absent = none_of_not-is_some (find_row (new_id entry s) s.rows) h in
        (absent, created-Becomes env entry custom s absent)

pub update_entry-Becomes :
    (env : Env) (db_id : Text) (entry : Entry) (s : Store)
    → Answers
        (λ (a : Entry × Store). (a.0.id ≡ entry.id) × Becomes entry.id entry.status s a.1)
        (update_entry env db_id entry s)
unfolding update_entry
update_entry-Becomes env db_id entry s =
    search (answers, rewritten-Becomes env entry, refl) depth 24 fits 100000

pub enqueue_entry-Becomes :
    (env : Env) (db_id : Text) (entry : Entry) (max_queued : ℕ) (s : Store)
    → Answers
        (λ (a : Entry × Store). (a.0.id ≡ entry.id) × Becomes entry.id queued s a.1)
        (enqueue_entry env db_id entry max_queued s)
unfolding enqueue_entry
enqueue_entry-Becomes env db_id entry max_queued s =
    search (answers, rewritten-Becomes env (record entry { status = queued }), refl) depth 24 fits
      100000

pub delete_entry-Others :
    (env : Env) (db_id : Text) (id : ℕ) (s : Store)
    → Answers
        (λ (a : DeletedEntryMeta × Store). (find_row id a.1.rows ≡ none) × Others id s a.1)
        (delete_entry env db_id id s)
unfolding delete_entry
delete_entry-Others env db_id id s = search (answers, without-Others id) depth 24 fits 100000

pub update_status-Others :
    (env : Env) (db_id : Text) (id : ℕ) (st : EntryStatus) (s : Store)
    → Answers
        (λ (a : Unit {0} × Store).
          ((p : EntryStatus → Bool) → p st ≡ false → status_in p (find_row id a.1.rows) ≡ false)
          × Others id s a.1)
        (update_entries_status env db_id (id ∷ []) st s)
unfolding update_entries_status
update_status-Others env db_id id st s =
    search (answers, restatused-Becomes env id st s) depth 24 fits 100000

-- With calls that work, these succeed wherever the row is there.
pub update_entry_works :
    (env : Env) (db_id : Text) (entry : Entry) (s : Store) (old : Row)
    → Works env db_id
    → find_row entry.id s.rows ≡ some old
    → is_ok (update_entry env db_id entry s) ≡ true
unfolding update_entry
update_entry_works env db_id entry s old w e = ground (arith, w, e)

pub delete_entry_works :
    (env : Env) (db_id : Text) (id : ℕ) (s : Store) (old : Row)
    → Works env db_id
    → find_row id s.rows ≡ some old
    → is_ok (delete_entry env db_id id s) ≡ true
unfolding delete_entry
delete_entry_works env db_id id s old w e = ground (arith, w, e)
