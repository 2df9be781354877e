-- ===== src/Processing/Trigger.antt =====
-- internal/processing/worker.go, dispatchQueuedWorkers: the scan guard, as the interleavings of any
-- number of goroutines. Each step is one atomic action of one goroutine, and the counters say how
-- many goroutines stand before each action.
use media_hub_oss.Prelude.{ℕ, ◌+◌, ◌-◌, ◌<◌, ◌≤◌, ◌≡◌, ◌⊎◌, arith, Bool, true, false, if◌then◌else◌}

pub record Scan : Type 0 where
  pub needs_rescan : Bool
  pub is_scanning_queue : Bool
  -- before the first CompareAndSwap
  pub at_swap : ℕ
  -- owning the guard: at the head of the loop, before the pass, in the pass, and after it
  pub at_head : ℕ
  pub at_pass : ℕ
  pub in_pass : ℕ
  pub at_release : ℕ
  -- after the release: before the Load and before the second CompareAndSwap
  pub at_load : ℕ
  pub at_reswap : ℕ
  -- a trigger has come since the last pass began
  pub unserved : Bool
  -- a goroutine has left because its context was cancelled
  pub cancelled : Bool

pub data Step (s : Scan) : Scan → Type 0 where
  trigger : Step s (record s { needs_rescan = true; at_swap = s.at_swap + 1; unserved = true })
  enter :
      0 < s.at_swap
      → s.is_scanning_queue ≡ false
      → Step s
          (record s { is_scanning_queue = true; at_swap = s.at_swap - 1; at_head = s.at_head + 1 })
  turn_away :
      0 < s.at_swap → s.is_scanning_queue ≡ true → Step s (record s { at_swap = s.at_swap - 1 })
  cancel :
      0 < s.at_head
      → Step s (record s { is_scanning_queue = false; at_head = s.at_head - 1; cancelled = true })
  clear :
      0 < s.at_head
      → Step s (record s { needs_rescan = false; at_head = s.at_head - 1; at_pass = s.at_pass + 1 })
  begin :
      0 < s.at_pass
      → Step s (record s { at_pass = s.at_pass - 1; in_pass = s.in_pass + 1; unserved = false })
  again : 0 < s.in_pass → Step s (record s { in_pass = s.in_pass - 1; at_head = s.at_head + 1 })
  finish :
      0 < s.in_pass → Step s (record s { in_pass = s.in_pass - 1; at_release = s.at_release + 1 })
  release :
      0 < s.at_release
      → Step s (record s {
        is_scanning_queue = false;
        at_release = s.at_release - 1;
        at_load = s.at_load + 1;
      })
  leave : 0 < s.at_load → s.needs_rescan ≡ false → Step s (record s { at_load = s.at_load - 1 })
  reload :
      0 < s.at_load
      → s.needs_rescan ≡ true
      → Step s (record s { at_load = s.at_load - 1; at_reswap = s.at_reswap + 1 })
  reenter :
      0 < s.at_reswap
      → s.is_scanning_queue ≡ false
      → Step s (record s {
        is_scanning_queue = true;
        at_reswap = s.at_reswap - 1;
        at_head = s.at_head + 1;
      })
  give_way :
      0 < s.at_reswap
      → s.is_scanning_queue ≡ true
      → Step s (record s { at_reswap = s.at_reswap - 1 })

pub data Reach (s : Scan) : Scan → Type 0 where
  here : Reach s s
  next : {t u : Scan} → Reach s t → Step t u → Reach s u

abbrev pub quiet : Scan
quiet = record {
  needs_rescan = false;
  is_scanning_queue = false;
  at_swap = 0;
  at_head = 0;
  at_pass = 0;
  in_pass = 0;
  at_release = 0;
  at_load = 0;
  at_reswap = 0;
  unserved = false;
  cancelled = false;
}

abbrev pub owners : Scan → ℕ
owners s = s.at_head + s.at_pass + s.in_pass + s.at_release

record Inv (s : Scan) : Type 0 where
  guarded : owners s ≡ (if s.is_scanning_queue then 1 else 0)
  noted : s.cancelled ≡ false → s.unserved ≡ true → (s.needs_rescan ≡ true) ⊎ (0 < s.at_pass)
  attended :
      s.cancelled ≡ false
      → s.needs_rescan ≡ true
      → 0 < s.at_swap + owners s + s.at_load + s.at_reswap

Step-Inv : {s u : Scan} → Step s u → Inv s → Inv u
Step-Inv trigger v = ground arith
Step-Inv (enter h e) v = ground arith
Step-Inv (turn_away h e) v = ground arith
Step-Inv (cancel h) v = ground arith
Step-Inv (clear h) v = ground arith
Step-Inv (begin h) v = ground arith
Step-Inv (again h) v = ground arith
Step-Inv (finish h) v = ground arith
Step-Inv (release h) v = ground arith
Step-Inv (leave h e) v = ground arith
Step-Inv (reload h e) v = ground arith
Step-Inv (reenter h e) v = ground arith
Step-Inv (give_way h e) v = ground arith

Reach-Inv : {s : Scan} → Reach quiet s → Inv s
Reach-Inv here = ground arith
Reach-Inv (next r st) = Step-Inv st (Reach-Inv r)

-- Under any interleaving of the goroutines at most one of them runs a dispatch pass.
pub pass_exclusive : {s : Scan} → Reach quiet s → s.in_pass ≤ 1
pass_exclusive r = ground (arith, Reach-Inv r)

-- When all goroutines have returned, and none left because of a cancelled context, every trigger has
-- been followed by the beginning of a pass: none is lost, whatever the interleaving was.
pub triggers_served :
    {s : Scan}
    → Reach quiet s
    → s.at_swap + owners s + s.at_load + s.at_reswap ≡ 0
    → s.cancelled ≡ false
    → s.unserved ≡ false
triggers_served r idle alive = ground (arith, Reach-Inv r)
