-- ===== src/Processing/Slots/Bounds.antt =====
-- The slots under any interleaving of the goroutines that take them and give them back.
use media_hub_oss.Prelude.{ℕ, ◌+◌, ◌-◌, ◌<◌, ◌≤◌, ◌≡◌, ◌↔◌, arith, true, false}
use media_hub_oss.Processing.Slots.{
  Slots, new_slots, try_reserve_sync_slot, release_sync_slot, try_reserve_async_slot,
  release_async_slot, unreserve_async_slot, note_queued_entry,
}

-- The slots, and how many goroutines hold one of each kind.
pub record System : Type 0 where
  pub slots : Slots
  pub sync_holders : ℕ
  pub async_holders : ℕ

-- A goroutine tries for a slot, and holds it if it gets it; only a holder gives one back.
pub data Step (s : System) : System → Type 0 where
  take_sync :
      (try_reserve_sync_slot s.slots).1 ≡ true
      → Step s (record s {
        slots = (try_reserve_sync_slot s.slots).0;
        sync_holders = s.sync_holders + 1;
      })
  miss_sync :
      (try_reserve_sync_slot s.slots).1 ≡ false
      → Step s (record s { slots = (try_reserve_sync_slot s.slots).0 })
  give_sync :
      0 < s.sync_holders
      → Step s
          (record s { slots = (release_sync_slot s.slots).0; sync_holders = s.sync_holders - 1 })
  take_async :
      (try_reserve_async_slot s.slots).1 ≡ true
      → Step s (record s {
        slots = (try_reserve_async_slot s.slots).0;
        async_holders = s.async_holders + 1;
      })
  miss_async :
      (try_reserve_async_slot s.slots).1 ≡ false
      → Step s (record s { slots = (try_reserve_async_slot s.slots).0 })
  give_async :
      0 < s.async_holders
      → Step s
          (record s { slots = (release_async_slot s.slots).0; async_holders = s.async_holders - 1 })
  roll_back :
      0 < s.async_holders
      → Step s
          (record s { slots = unreserve_async_slot s.slots; async_holders = s.async_holders - 1 })
  note : Step s (record s { slots = (note_queued_entry s.slots).0 })

pub data Reach (s : System) : System → Type 0 where
  here : Reach s s
  next : {t u : System} → Reach s t → Step t u → Reach s u

pub record IsAccounted (a t : ℕ) (s : System) : Type 0 where
  pub async_limit : s.slots.n_ffmpeg_async ≡ a
  pub total_limit : s.slots.n_ffmpeg_total ≡ t
  pub async_held : s.slots.active_async ≡ s.async_holders
  pub total_held : s.slots.active_total ≡ s.sync_holders + s.async_holders
  pub async_bound : s.async_holders ≤ a
  pub total_bound : s.sync_holders + s.async_holders ≤ t

Step-IsAccounted : (a t : ℕ) {s u : System} → Step s u → IsAccounted a t s → IsAccounted a t u
unfolding try_reserve_sync_slot release_sync_slot try_reserve_async_slot release_async_slot
    unreserve_async_slot note_queued_entry
Step-IsAccounted a t (take_sync h) v = ground arith
Step-IsAccounted a t (miss_sync h) v = ground arith
Step-IsAccounted a t (give_sync h) v = ground arith
Step-IsAccounted a t (take_async h) v = ground arith
Step-IsAccounted a t (miss_async h) v = ground arith
Step-IsAccounted a t (give_async h) v = ground arith
Step-IsAccounted a t (roll_back h) v = ground arith
Step-IsAccounted a t note v = ground arith

abbrev pub idle : ℕ → ℕ → System
idle a t = record { slots = new_slots a t; sync_holders = 0; async_holders = 0 }

-- Whatever the goroutines do in whatever order, as long as only holders give slots back: at most
-- `n_ffmpeg_async` background and `n_ffmpeg_total` conversions in all hold a slot, the two counters
-- count the holders exactly, so neither is ever decremented at 0, and the limits stay as configured.
pub Reach-IsAccounted : (a t : ℕ) {s : System} → Reach (idle a t) s → IsAccounted a t s
unfolding new_slots
Reach-IsAccounted a t here = ground arith
Reach-IsAccounted a t (next r st) = Step-IsAccounted a t st (Reach-IsAccounted a t r)

-- A slot is refused only when it must be: a sync slot exactly when the total limit is used up, an
-- async slot exactly when the async or the total limit is.
pub reserve_refuses :
    (a t : ℕ) {s : System}
    → Reach (idle a t) s
    → ((try_reserve_sync_slot s.slots).1 ≡ false ↔ t ≤ s.sync_holders + s.async_holders)
      × ((try_reserve_async_slot s.slots).1 ≡ true
          ↔ (s.async_holders < a) × (s.sync_holders + s.async_holders < t))
unfolding try_reserve_sync_slot try_reserve_async_slot
reserve_refuses a t r = ground (arith, Reach-IsAccounted a t r)
