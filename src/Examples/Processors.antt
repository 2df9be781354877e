-- ===== src/Examples/Processors.antt =====
-- Slots, triggers, backoff and plans on concrete inputs.
use media_hub_oss.Prelude.{◌+◌, ◌≡◌, if◌then◌else◌, arith, refl, true, [], ◌∷◌, ok, ltb}
use media_hub_oss.Prelude.Text.{
  codes, file_ext, is_space, lower_code, to_lower, trim_space, trim_prefix, trim_suffix, has_prefix,
  ext_from,
}
use media_hub_oss.Media.Mime.{
  normalize_mime_type, clean_mime, resolve_alias, get_content_type, is_mime_of_type,
}
use media_hub_oss.Media.Capabilities.{
  FfmpegConverter, can_convert, can_create_preview, find_profile,
}
use media_hub_oss.Processing.Retry.{
  Registry, RetryKey, key_eq, find_claim, note_claim_failure, claim_deferred, prune, claim_delay,
  attempts_of, retry_base_claim_delay,
}
use media_hub_oss.Processing.Retry.Backoff.{capped_doubling, claim_delay_lem}
use media_hub_oss.Processing.Retry.Registry.{failure_after_prune}
use media_hub_oss.Processing.Plan.{
  converter_of, ProcessingPlan, replace_extension, initial_name, determine_plan,
  determine_conversion_plan, get_extension_for_mime_type, lookup_extension, subtype_extension,
}
use media_hub_oss.Processing.Plan.Outcome.{Answered, determine_conversion_plan-Answered}
use media_hub_oss.Examples.{image_db, db_id, picture}

claim_delay_lem_example : claim_delay 4 ≡ capped_doubling 3
claim_delay_lem_example = claim_delay_lem 3

abbrev failing_key : RetryKey
failing_key = record { db_id = db_id; entry_id = 7 }

abbrev failed_twice : Registry
failed_twice = (failing_key, record { attempts = 2; next_try = 90 }) ∷ []

-- The window of the record ends between the pruning at 80 and the claim: the delay doubles again.
failure_after_prune_example :
    claim_deferred 200 failing_key (note_claim_failure 150 failing_key (prune 80 failed_twice)) ≡ (
      if key_eq failing_key failing_key
      then ltb 200 (
          150
          + (if claim_deferred 80 failing_key failed_twice
              then capped_doubling (attempts_of (find_claim failing_key failed_twice))
              else retry_base_claim_delay))
      else claim_deferred 200 failing_key failed_twice)
unfolding find_claim
failure_after_prune_example =
    failure_after_prune 80 150 200 failing_key failing_key failed_twice (refl, tt) (omega arith)

abbrev ffmpeg : FfmpegConverter
ffmpeg = record {
  ffmpeg_path = codes "ffmpeg";
  supported_conversions =
      (codes "image/webp", record { content_type = codes "image"; is_recommended = true }) ∷ [];
}

abbrev to_webp : ProcessingPlan
to_webp = record {
  wants_conversion = true;
  needs_conversion = true;
  can_convert = true;
  wants_preview = true;
  can_gen_preview = true;
  init_mime_type = codes "image/png";
  target_mime_type = codes "image/webp";
  result_mime_type = codes "image/webp";
  init_file_name = codes "a.png";
  final_file_name = codes "a.webp";
}

to_webp_planned :
    determine_conversion_plan (converter_of ffmpeg) image_db (codes "PNG") (codes "a.png") []
    ≡ ok to_webp
unfolding determine_conversion_plan determine_plan normalize_mime_type clean_mime resolve_alias
    is_mime_of_type trim_space trim_prefix to_lower lower_code is_space has_prefix initial_name
    file_ext ext_from replace_extension trim_suffix get_extension_for_mime_type lookup_extension
    subtype_extension can_convert can_create_preview find_profile get_content_type
to_webp_planned = refl

determine_conversion_plan-Answered_example :
    Answered ffmpeg image_db
      (normalize_mime_type (codes "PNG"))
      (initial_name (codes "a.png") [])
      picture
      (determine_conversion_plan (converter_of ffmpeg) image_db (codes "PNG") (codes "a.png") [])
unfolding normalize_mime_type clean_mime resolve_alias trim_space trim_prefix to_lower lower_code
    is_space has_prefix
determine_conversion_plan-Answered_example =
    determine_conversion_plan-Answered ffmpeg image_db (codes "PNG") (codes "a.png") [] picture refl
      refl
