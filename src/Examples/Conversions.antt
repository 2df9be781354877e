-- ===== src/Examples/Conversions.antt =====
-- A processor of one async slot and two in all.
use media_hub_oss.Prelude.{refl, false}
use media_hub_oss.Processing.Slots.{
  new_slots, has_free_async_capacity, try_reserve_sync_slot, try_reserve_async_slot,
}
use media_hub_oss.Processing.Slots.Bounds.{
  System, Reach, here, next, take_async, take_sync, IsAccounted, idle, Reach-IsAccounted,
}

-- Both slots taken, one by each kind of conversion.
abbrev busy : System
busy = record {
  slots = record {
    n_ffmpeg_async = 1;
    n_ffmpeg_total = 2;
    active_async = 1;
    active_total = 2;
    has_queued_entries = false;
  };
  sync_holders = 1;
  async_holders = 1;
}

Reach-busy : Reach (idle 1 2) busy
unfolding new_slots try_reserve_async_slot try_reserve_sync_slot has_free_async_capacity
Reach-busy = next (next here (take_async refl)) (take_sync refl)

Reach-IsAccounted_example : IsAccounted 1 2 busy
Reach-IsAccounted_example = Reach-IsAccounted 1 2 Reach-busy
