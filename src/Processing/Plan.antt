-- ===== src/Processing/Plan.antt =====
-- internal/processing/plan.go: what is done to a file, and the names and MIME types that result.
pub mod FileNames
pub mod Targets
pub mod Outcome
use media_hub_oss.Prelude.{
  ℕ, Bool, true, false, not, ◌&&◌, ◌||◌, List, [], ◌∷◌, ◌++◌, ◌==◌, if◌then◌else◌, Result, ok, err,
  Error,
}
use media_hub_oss.Prelude.Text.{
  Text, codes, text_eq, is_empty, trim_prefix, trim_suffix, file_ext, split_on,
}
use media_hub_oss.Media.Mime.{normalize_mime_type, is_mime_of_type}
use media_hub_oss.Media.Capabilities.{
  ConversionCheck, ConversionOptions, FfmpegConverter, can_convert, can_create_preview,
}
use media_hub_oss.Repository.Types.{Database, Entry}

-- The questions of media.MediaConverter that a plan asks.
pub record Converter : Type 0 where
  pub check : Text → Text → ConversionCheck
  pub can_create_preview : Text → Bool

-- `media.ConversionOptions{TargetMimeType: target}`
abbrev pub target_only : Text → ConversionOptions
target_only target = record { target_mime_type = target; width = 0; height = 0; fit = [] }

-- FFmpeg's answers.
abbrev pub converter_of : FfmpegConverter → Converter
converter_of c = record {
  check = λ input target. can_convert c input (target_only target);
  can_create_preview = can_create_preview c;
}

pub record ProcessingPlan : Type 0 where
  pub wants_conversion : Bool
  pub needs_conversion : Bool
  pub can_convert : Bool
  pub wants_preview : Bool
  pub can_gen_preview : Bool
  pub init_mime_type : Text
  pub target_mime_type : Text
  pub result_mime_type : Text
  pub init_file_name : Text
  pub final_file_name : Text

unfoldable pub needs_slot : ProcessingPlan → Bool
needs_slot p = p.needs_conversion || (p.wants_preview && p.can_gen_preview)

abbrev pub mime_extensions : List (Text × Text)
mime_extensions =
    (codes "image/jpeg", codes "jpg")
    ∷ (codes "image/png", codes "png")
    ∷ (codes "image/gif", codes "gif")
    ∷ (codes "image/webp", codes "webp")
    ∷ (codes "image/avif", codes "avif")
    ∷ (codes "audio/mpeg", codes "mp3")
    ∷ (codes "audio/wav", codes "wav")
    ∷ (codes "audio/flac", codes "flac")
    ∷ (codes "audio/x-flac", codes "flac")
    ∷ (codes "audio/opus", codes "opus")
    ∷ (codes "audio/ogg", codes "ogg")
    ∷ (codes "application/ogg", codes "ogg")
    ∷ (codes "video/mp4", codes "mp4")
    ∷ (codes "video/webm", codes "webm")
    ∷ (codes "video/ogg", codes "ogv")
    ∷ []

-- The fallback for types that the table does not hold: "text/plain" gives ".plain".
unfoldable pub subtype_extension : List Text → Text
subtype_extension (main ∷ sub ∷ []) = codes "." ++ trim_prefix sub (codes "x-")
subtype_extension _ = []

unfoldable pub lookup_extension : Text → List (Text × Text) → Text
unfolding subtype_extension split_on
lookup_extension mime [] = subtype_extension (split_on b'/' mime)
lookup_extension mime ((m, ext) ∷ rest) =
    if text_eq m mime then codes "." ++ ext else lookup_extension mime rest

unfoldable pub get_extension_for_mime_type : Text → Text
unfolding lookup_extension
get_extension_for_mime_type mime = lookup_extension mime mime_extensions

unfoldable pub replace_extension : Text → Text → Text
replace_extension filename new_ext =
    if is_empty filename
    then []
    else if is_empty new_ext
    then filename
    else trim_suffix filename (file_ext filename) ++ new_ext

-- The name before conversion: the user's, with the original extension where it has none.
unfoldable pub initial_name : Text → Text → Text
unfolding file_ext
initial_name original user =
    if is_empty user
    then original
    else if is_empty (file_ext user)
    then user ++ file_ext original
    else user

unfoldable pub determine_plan : Converter → Database → Text → Text → Text → ProcessingPlan
determine_plan mc db original_mime original_name user_name =
    let mime = normalize_mime_type original_mime in
    let wants = not (is_empty db.config.auto_conversion) in
    let target = if wants then normalize_mime_type db.config.auto_conversion else mime in
    let check : ConversionCheck =
      if wants
      then mc.check mime target
      else record { needs_conversion = false; can_convert = false } in
    let result = if check.can_convert && check.needs_conversion then target else mime in
    let name = initial_name original_name user_name in
    record {
      wants_conversion = wants;
      needs_conversion = check.needs_conversion;
      can_convert = check.can_convert;
      wants_preview = db.config.create_preview;
      can_gen_preview = mc.can_create_preview result;
      init_mime_type = mime;
      target_mime_type = target;
      result_mime_type = result;
      init_file_name = name;
      final_file_name =
          if check.needs_conversion && check.can_convert
          then replace_extension name (get_extension_for_mime_type target)
          else name;
    }

-- On an error the plan is not used by the caller.
unfoldable pub determine_conversion_plan :
    Converter → Database → Text → Text → Text → Result ProcessingPlan
determine_conversion_plan mc db original_mime original_name user_name =
    let mime = normalize_mime_type original_mime in
    let plan = determine_plan mc db mime original_name user_name in
    elim (is_mime_of_type db.content_type mime) [
      | err e ↦ err e
      | ok valid ↦
          if not valid
          then err Error.bad_mime_type
          else if plan.needs_conversion && not plan.can_convert
          then err Error.failure
          else ok plan
    ]

unfoldable pub determine_plan_for_entry : Converter → Database → Entry → ProcessingPlan
determine_plan_for_entry mc db entry = determine_plan mc db entry.mime_type entry.file_name []
