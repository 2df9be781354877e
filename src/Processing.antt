-- ===== src/Processing.antt =====
-- internal/processing: the pipelines for uploads and the queue of entries that wait for a slot.
pub mod Slots
pub mod Retry
pub mod Trigger
pub mod Plan
pub mod Pipeline
pub mod Finalize
pub mod Incoming
pub mod Worker
