-- ===== src/Repository/Queue.antt =====
-- The processing queue that the entry tables hold: what EnqueueEntry admits and who wins a claim.
use media_hub_oss.Prelude.{
  ℕ, ◌+◌, ◌≤◌, ◌≡◌, refl, arith, List, [], ◌∷◌, some, none, true, false, ltb, Option-cases, inl,
  inr, ◌||◌, Bool, ok, ◌↔◌, ◌<◌, Result, err,
}
use media_hub_oss.Prelude.Text.{Text}
use media_hub_oss.Repository.Types.{queued, status_eq, Row, Store, Env, Entry}
use media_hub_oss.Repository.Table.{find_row, update_row, count_status}
use media_hub_oss.Repository.Entries.{
  is_queued_row, enqueue_entry, rewritten, claimed, claim_row, claim_queued_entry,
}
use media_hub_oss.Repository.Consistency.{IsConsistent, HasRoom, Leaves, leaves}
use media_hub_oss.Repository.Consistency.Changing.{rewritten-IsConsistent}

-- Every call of the driver succeeds and the database id is well formed.
pub record Works (env : Env) (id : Text) : Type 0 where
  pub valid : env.is_valid_ulid id ≡ true
  pub begins : env.begin_fails ≡ false
  pub queries : env.query_fails ≡ false
  pub execs : env.exec_fails ≡ false
  pub results : env.result_fails ≡ false
  pub counts : env.stats_fails ≡ false
  pub commits : env.commit_fails ≡ false

module _ (env : Env) (id : Text) (entry : Entry) (max_queued : ℕ) (s : Store) where
  one_more :
      (old : Row)
      → status_eq old.status queued ≡ false
      → (rewritten env (record entry { status = queued }) old s).stats.queued_count
        ≡ s.stats.queued_count + 1
  unfolding rewritten
  one_more old h = ground arith

  admitted :
      (old : Row)
      → IsConsistent s
      → HasRoom entry s
      → is_queued_row (find_row entry.id s.rows) ≡ false
      → find_row entry.id s.rows ≡ some old
      → (status_eq old.status queued || ltb s.stats.queued_count max_queued) ≡ true
      → count_status queued (rewritten env (record entry { status = queued }) old s).rows
        ≤ max_queued
  admitted old v room out e h = ground (
    arith,
    rewritten-IsConsistent env (record entry { status = queued }) old s v room e,
    one_more old,
  )

  -- In a consistent database with room for the entry's bytes, an entry that is not in the queue
  -- enters it only where that leaves at most `max_queued` entries of the database queued.
  pub enqueue_entry_bounded :
      IsConsistent s
      → HasRoom entry s
      → is_queued_row (find_row entry.id s.rows) ≡ false
      → Leaves
          (λ s'. count_status queued s'.rows ≤ max_queued)
          (enqueue_entry env id entry max_queued s)
  unfolding enqueue_entry
  enqueue_entry_bounded v room unqueued = search (leaves, admitted) depth 16 fits 100000

abbrev pub is_ok : {A : Type 0} → Result A → Bool
is_ok (ok a) = true
is_ok (err e) = false

-- When every call works, EnqueueEntry takes an entry of a consistent database that is not in the
-- queue exactly when fewer than `max_queued` of its entries are queued.
pub enqueue_entry_accepts :
    (env : Env) (id : Text) (entry : Entry) (max_queued : ℕ) (s : Store) (old : Row)
    → Works env id
    → IsConsistent s
    → find_row entry.id s.rows ≡ some old
    → status_eq old.status queued ≡ false
    → (is_ok (enqueue_entry env id entry max_queued s) ≡ true)
      ↔ (count_status queued s.rows < max_queued)
unfolding enqueue_entry
enqueue_entry_accepts env id entry max_queued s old w v e h =
    ground (arith, w, v.queue_counted, e, h)

find_row-update :
    (id : ℕ) (f : Row → Row) (rs : List Row)
    → ((r : Row) → (f r).id ≡ r.id)
    → find_row id (update_row id f rs) ≡ elim (find_row id rs) [ none ↦ none | some r ↦ some (f r) ]
unfolding find_row update_row
find_row-update id f [] same = refl
find_row-update id f (r ∷ rs) same = ground (arith, same r, find_row-update id f rs same)

claim_row-id : (env : Env) (r : Row) → (claim_row env r).id ≡ r.id
unfolding claim_row
claim_row-id env r = ground arith

claimed_gone :
    (env : Env) (id : ℕ) (s : Store)
    → is_queued_row (find_row id (claimed env id (is_queued_row (find_row id s.rows)) s).rows)
      ≡ false
unfolding claimed claim_row
claimed_gone env id s =
    rw (find_row-update id (claim_row env) s.rows (claim_row-id env))
      (elim (Option-cases (find_row id s.rows)) [
        | inl e ↦ rw e refl
        | inr (r, e) ↦ rw e (ground arith)
      ])

claim_ok :
    (env : Env) (id : Text) (i : ℕ) (s s' : Store) (won : Bool)
    → claim_queued_entry env id i s ≡ ok (won, s')
    → (won ≡ is_queued_row (find_row i s.rows))
      × (s' ≡ claimed env i (is_queued_row (find_row i s.rows)) s)
unfolding claim_queued_entry
claim_ok env id i s s' won h = ground arith

-- An entry is claimed at most once: when two claims of it go through one after the other, by
-- whichever nodes, the first finds it queued exactly if it is, and the second never wins.
pub claim_once :
    (env env' : Env) (id : Text) (i : ℕ) (s s₁ s₂ : Store) (first second : Bool)
    → claim_queued_entry env id i s ≡ ok (first, s₁)
    → claim_queued_entry env' id i s₁ ≡ ok (second, s₂)
    → (first ≡ is_queued_row (find_row i s.rows)) × (second ≡ false)
claim_once env env' id i s s₁ s₂ first second h k =
    let one = claim_ok env id i s s₁ first h in
    let two = claim_ok env' id i s₁ s₂ second k in (one.0, cc (two.0, one.1, claimed_gone env i s))
