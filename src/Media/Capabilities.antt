-- ===== src/Media/Capabilities.antt =====
-- internal/media/ffmpeg/capabilities.go: what the FFmpeg converter says that it can do. Which
-- conversions the installed program supports is found at the start and is part of its state.
use media_hub_oss.Prelude.{
  ℕ, Bool, false, not, ◌&&◌, ◌||◌, ltb, List, [], ◌∷◌, Option, none, some, if◌then◌else◌,
}
use media_hub_oss.Prelude.Text.{Text, codes, text_eq, is_empty, has_prefix}
use media_hub_oss.Media.Mime.{normalize_mime_type, get_content_type}

pub record ConversionCheck : Type 0 where
  pub needs_conversion : Bool
  pub can_convert : Bool

pub record ConversionProfile : Type 0 where
  pub content_type : Text
  pub is_recommended : Bool

pub record FfmpegConverter : Type 0 where
  pub ffmpeg_path : Text
  pub supported_conversions : List (Text × ConversionProfile)

-- A negative width or height counts as none, as 0 does.
pub record ConversionOptions : Type 0 where
  pub target_mime_type : Text
  pub width : ℕ
  pub height : ℕ
  pub fit : Text

abbrev pub is_ffmpeg_available : FfmpegConverter → Bool
is_ffmpeg_available c = not (is_empty c.ffmpeg_path)

unfoldable pub find_profile : Text → List (Text × ConversionProfile) → Option ConversionProfile
find_profile mime [] = none
find_profile mime ((m, profile) ∷ rest) =
    if text_eq m mime then some profile else find_profile mime rest

unfoldable pub can_create_preview : FfmpegConverter → Text → Bool
can_create_preview c input =
    if not (is_ffmpeg_available c)
    then false
    else let norm = normalize_mime_type input in
      has_prefix norm (codes "image/")
      || (has_prefix norm (codes "video/") || has_prefix norm (codes "audio/"))

-- The last of the nested tests: is there a profile of the content type for the target?
abbrev pub fits_profile : Text → Option ConversionProfile → Bool
fits_profile content_type none = false
fits_profile content_type (some profile) = text_eq profile.content_type content_type

unfoldable pub can_convert : FfmpegConverter → Text → ConversionOptions → ConversionCheck
can_convert c input opts =
    let norm_input = normalize_mime_type input in
    let norm_target =
      if is_empty opts.target_mime_type
      then norm_input
      else normalize_mime_type opts.target_mime_type in
    let resizes = ltb 0 opts.width || ltb 0 opts.height in
    let content_type = get_content_type norm_input in
    let moving = text_eq content_type (codes "video") || text_eq content_type (codes "audio") in
    record {
      needs_conversion = not (text_eq norm_input norm_target) || resizes;
      can_convert =
          if not (is_ffmpeg_available c)
          then false
          else if text_eq content_type (codes "file")
          then false
          else if moving && (resizes || not (is_empty opts.fit))
          then false
          else fits_profile content_type (find_profile norm_target c.supported_conversions);
    }
