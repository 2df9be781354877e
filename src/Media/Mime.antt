-- ===== src/Media/Mime.antt =====
-- internal/media/utils.go and models.go: MIME aliases, content types, metadata fields.
use media_hub_oss.Prelude.{Bool, true, List, [], ◌∷◌, if◌then◌else◌, Result, ok, err, Error}
use media_hub_oss.Prelude.Text.{
  Text, codes, text_eq, one_of, to_lower, trim_space, trim_prefix, has_prefix,
}

-- The cases of the `switch` in NormalizeMimeType: the labels and the type they stand for.
abbrev pub mime_aliases : List (List Text × Text)
mime_aliases =
    (codes "webp" ∷ codes "image/webp" ∷ [], codes "image/webp")
    ∷ (codes "jpg" ∷ codes "jpeg" ∷ codes "image/jpg" ∷ codes "image/jpeg" ∷ [], codes "image/jpeg")
    ∷ (codes "avif" ∷ codes "image/avif" ∷ [], codes "image/avif")
    ∷ (codes "png" ∷ codes "image/png" ∷ [], codes "image/png")
    ∷ (codes "gif" ∷ codes "image/gif" ∷ [], codes "image/gif")
    ∷ (codes "flac" ∷ codes "audio/x-flac" ∷ codes "audio/flac" ∷ [], codes "audio/flac")
    ∷ (codes "opus" ∷ codes "audio/opus" ∷ [], codes "audio/opus")
    ∷ (codes "mp3" ∷ codes "audio/mp3" ∷ codes "audio/mpeg" ∷ [], codes "audio/mpeg")
    ∷ (codes "m4a" ∷ codes "audio/m4a" ∷ [], codes "audio/mp4")
    ∷ (
      codes "wav"
          ∷ codes "wave"
          ∷ codes "audio/wav"
          ∷ codes "audio/wave"
          ∷ codes "audio/x-wav"
          ∷ [],
      codes "audio/wav",
    )
    ∷ (
      codes "ogg"
          ∷ codes "oga"
          ∷ codes "audio/ogg"
          ∷ codes "audio/x-ogg"
          ∷ codes "application/ogg"
          ∷ [],
      codes "audio/ogg",
    )
    ∷ (codes "mp4" ∷ codes "video/mp4" ∷ [], codes "video/mp4")
    ∷ (codes "webm" ∷ codes "video/webm" ∷ [], codes "video/webm")
    ∷ (codes "ogv" ∷ codes "video/ogg" ∷ [], codes "video/ogg")
    ∷ (codes "mkv" ∷ codes "video/x-matroska" ∷ [], codes "video/x-matroska")
    ∷ (codes "avi" ∷ codes "video/x-msvideo" ∷ [], codes "video/x-msvideo")
    ∷ (codes "flv" ∷ codes "video/x-flv" ∷ [], codes "video/x-flv")
    ∷ (codes "mov" ∷ codes "video/quicktime" ∷ [], codes "video/quicktime")
    ∷ []

-- The first case with a label equal to the text, or the text itself (`default`).
unfoldable pub resolve_alias : Text → List (List Text × Text) → Text
resolve_alias s [] = s
resolve_alias s ((labels, t) ∷ cases) = if one_of s labels then t else resolve_alias s cases

unfoldable pub clean_mime : Text → Text
unfolding trim_prefix to_lower trim_space
clean_mime mime = trim_prefix (to_lower (trim_space mime)) (codes ".")

unfoldable pub normalize_mime_type : Text → Text
unfolding clean_mime resolve_alias
normalize_mime_type mime = resolve_alias (clean_mime mime) mime_aliases

unfoldable pub get_content_type : Text → Text
unfolding normalize_mime_type has_prefix
get_content_type mime =
    let norm = normalize_mime_type mime in
    if has_prefix norm (codes "image/")
    then codes "image"
    else if has_prefix norm (codes "video/")
    then codes "video"
    else if has_prefix norm (codes "audio/")
    then codes "audio"
    else codes "file"

abbrev pub image_mime_types : List Text
image_mime_types =
    codes "image/png"
    ∷ codes "image/jpeg"
    ∷ codes "image/webp"
    ∷ codes "image/gif"
    ∷ codes "image/avif"
    ∷ []

abbrev pub video_mime_types : List Text
video_mime_types =
    codes "video/mp4"
    ∷ codes "video/webm"
    ∷ codes "video/ogg"
    ∷ codes "video/x-matroska"
    ∷ codes "video/x-msvideo"
    ∷ codes "video/x-flv"
    ∷ codes "video/quicktime"
    ∷ []

abbrev pub audio_mime_types : List Text
audio_mime_types =
    codes "audio/mpeg"
    ∷ codes "audio/wav"
    ∷ codes "audio/flac"
    ∷ codes "audio/opus"
    ∷ codes "audio/ogg"
    ∷ codes "audio/mp4"
    ∷ []

unfoldable pub is_mime_of_type : Text → Text → Result Bool
unfolding normalize_mime_type
is_mime_of_type content_type mime =
    let norm = normalize_mime_type mime in
    if text_eq content_type (codes "image")
    then ok (one_of norm image_mime_types)
    else if text_eq content_type (codes "video")
    then ok (one_of norm video_mime_types)
    else if text_eq content_type (codes "audio")
    then ok (one_of norm audio_mime_types)
    else if text_eq content_type (codes "file")
    then ok true
    else err Error.not_found

-- The Go type of a metadata field.
pub data FieldType : Type 0 where
  uint8 uint64 float64 : FieldType

pub record FieldDef : Type 0 where
  pub name : Text
  pub type : FieldType

unfoldable pub get_metadata_fields : Text → Result (List FieldDef)
get_metadata_fields content_type =
    if text_eq content_type (codes "image")
    then ok (
        record { name = codes "width"; type = uint64 }
        ∷ record { name = codes "height"; type = uint64 }
        ∷ [])
    else if text_eq content_type (codes "video")
    then ok (
        record { name = codes "width"; type = uint64 }
        ∷ record { name = codes "height"; type = uint64 }
        ∷ record { name = codes "duration"; type = float64 }
        ∷ [])
    else if text_eq content_type (codes "audio")
    then ok (
        record { name = codes "duration"; type = float64 }
        ∷ record { name = codes "channels"; type = uint8 }
        ∷ [])
    else if text_eq content_type (codes "file")
    then ok []
    else err Error.not_found
