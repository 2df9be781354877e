-- ===== src/Http.antt =====
-- The parts of the HTTP server that compute something of their own.
pub mod Range
pub mod ZipName
