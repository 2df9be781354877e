-- ===== src/Media.antt =====
-- The MIME types and content types of internal/media/utils.go and internal/media/models.go, and the
-- answers of internal/media/ffmpeg/capabilities.go.
pub mod Mime
pub mod Capabilities
