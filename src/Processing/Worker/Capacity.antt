-- ===== src/Processing/Worker/Capacity.antt =====
-- A dispatch pass keeps to the free slots and to the claims that it has won. The slots change only by
-- the pass while it runs: no worker ends meanwhile, and no upload takes or gives back a slot.
use media_hub_oss.Prelude.{
  ◌+◌, ◌≤◌, ◌<◌, ◌≡◌, refl, arith, Bool, true, false, not, ◌||◌, ◌==◌, if◌then◌else◌, List, [], ◌∷◌,
  length, All, Result, ok, err,
}
use media_hub_oss.Prelude.Text.{Text}
use media_hub_oss.Repository.Types.{Entry}
use media_hub_oss.Processing.Slots.{
  Slots, has_free_async_capacity, try_reserve_async_slot, unreserve_async_slot,
}
use media_hub_oss.Processing.Retry.{Registry, claim_deferred, prune}
use media_hub_oss.Processing.Worker.{
  claim_lost, claim_aborted, Queries, key_of, after_claim, try_claim_and_spawn, Pass, claimed_one,
  claim_entries, claim_databases, any, free_slots, start_pass, PassResult, pass_result,
  run_dispatch_pass,
}

module _ (q : Queries) (retries : Registry) where
  -- A worker's entry: the repository gave this node the claim, and it was not held back.
  pub record Won (s : Text × Entry) : Type 0 where
    pub claimed : q.claim s.0 s.1.id ≡ ok true
    pub due : claim_deferred (q.asked_at s.0 s.1.id) (key_of s.0 s.1) retries ≡ false

  -- `s` are the slots at the start.
  pub record IsFair (s : Slots) (p : Pass) : Type 0 where
    pub async : p.slots.active_async ≡ s.active_async + length p.spawned
    pub total : p.slots.active_total ≡ s.active_total + length p.spawned
    pub async_limit : p.slots.n_ffmpeg_async ≡ s.n_ffmpeg_async
    pub total_limit : p.slots.n_ffmpeg_total ≡ s.n_ffmpeg_total
    pub left : p.remaining + length p.spawned ≡ free_slots s
    pub won : All Won p.spawned

  module _ (s : Slots) where
    claimed_one-IsFair :
        (db_id : Text) (entry : Entry) (p : Pass)
        → (p.remaining == 0) ≡ false
        → IsFair s p
        → IsFair s (claimed_one db_id entry p (try_claim_and_spawn q retries db_id entry p.slots))
    unfolding try_claim_and_spawn try_reserve_async_slot unreserve_async_slot
    claimed_one-IsFair db_id entry p some_left f =
        tried (claim_deferred (q.asked_at db_id entry.id) (key_of db_id entry) retries) refl
          (try_reserve_async_slot p.slots).1 refl (q.claim db_id entry.id) refl
      where
        held : Slots
        held = (try_reserve_async_slot p.slots).0

        positive : 0 < p.remaining
        positive = ground (arith, some_left)

        rolled_back :
            (b : Bool)
            → (try_reserve_async_slot p.slots).1 ≡ true
            → IsFair s (record p { slots = unreserve_async_slot held; aborted = b })
        rolled_back b g = record {
          async = ground (arith, g, f.async);
          total = ground (arith, g, f.total);
          async_limit = ground (arith, g, f.async_limit);
          total_limit = ground (arith, g, f.total_limit);
          left = f.left;
          won = f.won;
        }

        tried :
            (d : Bool)
            → claim_deferred (q.asked_at db_id entry.id) (key_of db_id entry) retries ≡ d
            → (got : Bool) → (try_reserve_async_slot p.slots).1 ≡ got
            → (c : Result Bool) → q.claim db_id entry.id ≡ c
            → IsFair s (
                claimed_one db_id entry p (
                  if d
                  then (claim_lost, p.slots)
                  else if got
                  then after_claim held c
                  else (claim_aborted, p.slots)))
        tried true e got g c h = f
        tried false e false g c h = record {
          async = f.async;
          total = f.total;
          async_limit = f.async_limit;
          total_limit = f.total_limit;
          left = f.left;
          won = f.won;
        }
        tried false e true g (err x) h = rolled_back true g
        tried false e true g (ok false) h = rolled_back p.aborted g
        tried false e true g (ok true) h = record {
          async = ground (arith, g, f.async);
          total = ground (arith, g, f.total);
          async_limit = ground (arith, g, f.async_limit);
          total_limit = ground (arith, g, f.total_limit);
          left = omega (arith, f.left, positive);
          won = (record { claimed = h; due = e }, f.won);
        }

    stop_or :
        (b : Bool) (p r : Pass)
        → IsFair s p
        → (b ≡ false → IsFair s r)
        → IsFair s (if b then p else r)
    stop_or true p r f k = f
    stop_or false p r f k = k refl

    claim_entries-IsFair :
        (db_id : Text) (entries : List Entry) (p : Pass)
        → IsFair s p
        → IsFair s (claim_entries q retries db_id entries p)
    unfolding claim_entries
    claim_entries-IsFair db_id [] p f = f
    claim_entries-IsFair db_id (entry ∷ entries) p f =
        stop_or (p.aborted || (p.remaining == 0 || q.cancelled_at db_id entry.id)) p _ f λ e.
          claim_entries-IsFair db_id entries _
            (claimed_one-IsFair db_id entry p (ground (arith, e)) f)

    claim_databases-IsFair :
        (ids : List Text) (p : Pass) → IsFair s p → IsFair s (claim_databases q retries ids p)
    unfolding claim_databases
    claim_databases-IsFair [] p f = f
    claim_databases-IsFair (db_id ∷ ids) p f =
        stop_or (p.aborted || (p.remaining == 0 || q.cancelled db_id)) p _ f
          λ e. next (q.queued_entries db_id p.remaining) (claim_databases-IsFair ids)
      where
        next :
            (r : Result (List Entry))
            → ((u : Pass) → IsFair s u → IsFair s (claim_databases q retries ids u))
            → IsFair s (elim r [
              | err e ↦ claim_databases q retries ids p
              | ok entries ↦ claim_databases q retries ids (claim_entries q retries db_id entries p)
            ])
        next (err e) later = later p f
        next (ok entries) later = later _ (claim_entries-IsFair db_id entries p f)

-- What a pass promises of its result.
pub record IsFairPass (q : Queries) (s : Slots) (retries : Registry) (r : PassResult) : Type 0 where
  -- one slot for each worker, and no more workers than there were free slots
  pub async : r.slots.active_async ≡ s.active_async + length r.spawned
  pub total : r.slots.active_total ≡ s.active_total + length r.spawned
  pub fits : length r.spawned ≤ free_slots s
  -- each worker's entry is claimed by this node and past its backoff
  pub won : All (Won q (prune q.pruned_at retries)) r.spawned
  -- another pass follows only where this one left a slot free
  pub spare : (not r.more || has_free_async_capacity r.slots) ≡ true

idle-IsFairPass :
    (q : Queries) (s : Slots) (retries kept : Registry) (hint : Bool)
    → IsFairPass q s retries (record {
      slots = record s { has_queued_entries = hint };
      retries = kept;
      spawned = [];
      more = false;
    })
idle-IsFairPass q s retries kept hint = record {
  async = omega arith;
  total = omega arith;
  fits = omega arith;
  won = tt;
  spare = refl;
}

pass_result-IsFairPass :
    (q : Queries) (s : Slots) (retries : Registry) (hint : Bool) (p : Pass)
    → IsFair q (prune q.pruned_at retries) (record s { has_queued_entries = hint }) p
    → IsFairPass q s retries (pass_result (prune q.pruned_at retries) p)
unfolding has_free_async_capacity
pass_result-IsFairPass q s retries hint p f = record {
  async = f.async;
  total = f.total;
  fits = omega (arith, f.left);
  won = f.won;
  spare = ground (arith, f.async, f.total, f.async_limit, f.total_limit, f.left);
}

-- A dispatch pass holds one async slot for each worker that it spawns, spawns no more of them than
-- there were free slots, only for entries that this node has claimed and that are past their
-- backoff, and asks for another pass at once only where a slot is still free.
pub run_dispatch_pass-IsFairPass :
    (q : Queries) (retries : Registry) (s : Slots)
    → IsFairPass q s retries (run_dispatch_pass q retries s)
unfolding run_dispatch_pass
run_dispatch_pass-IsFairPass q retries s = split q.databases_with_queued
  where
    kept : Registry
    kept = prune q.pruned_at retries

    start :
        (hint : Bool)
        → IsFair q kept
            (record s { has_queued_entries = hint })
            (start_pass (record s { has_queued_entries = hint }))
    start hint = record {
      async = omega arith;
      total = omega arith;
      async_limit = refl;
      total_limit = refl;
      left = omega arith;
      won = tt;
    }

    one_of_two :
        (b : Bool) (x y : PassResult)
        → IsFairPass q s retries x
        → IsFairPass q s retries y
        → IsFairPass q s retries (if b then x else y)
    one_of_two true x y f g = f
    one_of_two false x y f g = g

    split :
        (r : Result (List Text))
        → IsFairPass q s retries (elim r [
          | err e ↦ record { slots = s; retries = kept; spawned = []; more = false }
          | ok ids ↦
              let hinted = record s { has_queued_entries = any ids } in
              if not (any ids) || free_slots hinted == 0
              then record { slots = hinted; retries = kept; spawned = []; more = false }
              else pass_result kept (claim_databases q kept ids (start_pass hinted))
        ])
    split (err e) = idle-IsFairPass q s retries kept s.has_queued_entries
    split (ok ids) = one_of_two _ _ _ (idle-IsFairPass q s retries kept (any ids)) (
        pass_result-IsFairPass q s retries (any ids) _ (
          claim_databases-IsFair q kept (record s { has_queued_entries = any ids }) ids _
            (start (any ids))))
