-- ===== src/Processing/Slots.antt =====
-- internal/processing/slots.go: the conversion slots of a Processor. Each method runs under `mu`,
-- so it is one step; where it starts a dispatch pass, its result says so.
pub mod Bounds
use media_hub_oss.Prelude.{ℕ, ◌+◌, ◌-◌, Bool, true, false, ◌&&◌, ltb, leb, if◌then◌else◌}

pub record Slots : Type 0 where
  pub n_ffmpeg_async : ℕ
  pub n_ffmpeg_total : ℕ
  pub active_async : ℕ
  pub active_total : ℕ
  pub has_queued_entries : Bool

-- The slots of NewProcessor.
unfoldable pub new_slots : ℕ → ℕ → Slots
new_slots n_ffmpeg_async n_ffmpeg_total = record {
  n_ffmpeg_async = n_ffmpeg_async;
  n_ffmpeg_total = n_ffmpeg_total;
  active_async = 0;
  active_total = 0;
  has_queued_entries = false;
}

unfoldable pub has_free_async_capacity : Slots → Bool
has_free_async_capacity p =
    ltb p.active_async p.n_ffmpeg_async && ltb p.active_total p.n_ffmpeg_total

unfoldable pub try_reserve_sync_slot : Slots → Slots × Bool
try_reserve_sync_slot p =
    if leb p.n_ffmpeg_total p.active_total
    then (p, false)
    else (record p { active_total = p.active_total + 1 }, true)

unfoldable pub release_sync_slot : Slots → Slots × Bool
unfolding has_free_async_capacity
release_sync_slot p =
    let q = record p { active_total = p.active_total - 1 } in
    (q, q.has_queued_entries && has_free_async_capacity q)

unfoldable pub try_reserve_async_slot : Slots → Slots × Bool
unfolding has_free_async_capacity
try_reserve_async_slot p =
    if has_free_async_capacity p
    then (record p { active_async = p.active_async + 1; active_total = p.active_total + 1 }, true)
    else (p, false)

unfoldable pub release_async_slot : Slots → Slots × Bool
unfolding has_free_async_capacity
release_async_slot p =
    let q = record p { active_async = p.active_async - 1; active_total = p.active_total - 1 } in
    (q, q.has_queued_entries && has_free_async_capacity q)

unfoldable pub unreserve_async_slot : Slots → Slots
unreserve_async_slot p = record p {
  active_async = p.active_async - 1;
  active_total = p.active_total - 1;
}

unfoldable pub note_queued_entry : Slots → Slots × Bool
unfolding has_free_async_capacity
note_queued_entry p =
    let q = record p { has_queued_entries = true } in (q, has_free_async_capacity q)
