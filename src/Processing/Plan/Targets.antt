-- ===== src/Processing/Plan/Targets.antt =====
-- Into which type a plan converts an upload, with the answers of FFmpeg.
use media_hub_oss.Prelude.{
  ◌≡◌, refl, ap, ◌∙◌, arith, Bool, true, false, not, ◌&&◌, ◌||◌, [], ◌∷◌, if◌then◌else◌, Bool-cases,
  inl, inr,
}
use media_hub_oss.Prelude.Text.{Text, codes, text_eq, text_eq→≡, text_eq_refl, is_empty, has_prefix}
use media_hub_oss.Media.Mime.{normalize_mime_type, clean_mime, resolve_alias, get_content_type}
use media_hub_oss.Media.Capabilities.{
  FfmpegConverter, ConversionCheck, is_ffmpeg_available, find_profile, fits_profile, can_convert,
  can_create_preview,
}
use media_hub_oss.Repository.Types.{Database}
use media_hub_oss.Processing.Plan.{
  converter_of, target_only, ProcessingPlan, replace_extension, get_extension_for_mime_type,
  initial_name, determine_plan,
}

-- The type that a database asks for: its configured one, or that of the upload.
abbrev pub wanted_type : Database → Text → Text
wanted_type db mime =
    let target = normalize_mime_type db.config.auto_conversion in
    if is_empty target then mime else target

-- Can the converter make a file of the one type into the other?
abbrev pub convertible : FfmpegConverter → Text → Text → Bool
convertible c from to =
    is_ffmpeg_available c
    && (not (text_eq (get_content_type from) (codes "file"))
        && fits_profile (get_content_type from) (find_profile to c.supported_conversions))

same_type :
    (c : FfmpegConverter) (mime : Text)
    → ConversionCheck.needs_conversion (can_convert c mime (target_only [])) ≡ false
unfolding can_convert
same_type c mime = ground (arith, text_eq_refl (normalize_mime_type mime))

-- The tests of CanConvert where no size and no fit is asked for.
bare_check :
    (same installed file moving fits : Bool)
    → let check : ConversionCheck = record {
      needs_conversion = not same || false;
      can_convert =
          if not installed
          then false
          else if file
          then false
          else if moving && false
          then false
          else fits;
    } in
      check ≡ record { needs_conversion = not same; can_convert = installed && (not file && fits) }
bare_check same installed file moving fits = ground arith

other_type :
    (c : FfmpegConverter) (mime target : Text)
    → is_empty target ≡ false
    → normalize_mime_type mime ≡ mime
    → normalize_mime_type target ≡ target
    → can_convert c mime (target_only target) ≡ record {
      needs_conversion = not (text_eq mime target);
      can_convert = convertible c mime target;
    }
unfolding can_convert
other_type c mime target given m t =
    rw (given, m, t)
      (bare_check (text_eq mime target) (is_ffmpeg_available c)
        (text_eq (get_content_type mime) (codes "file"))
        (text_eq (get_content_type mime) (codes "video")
          || text_eq (get_content_type mime) (codes "audio"))
        (fits_profile (get_content_type mime) (find_profile target c.supported_conversions)))

medium_known :
    (a b d : Bool)
    → (a || (b || d))
      ≡ not (
          text_eq
            (if a
              then codes "image"
              else if b
              then codes "video"
              else if d
              then codes "audio"
              else codes "file")
            (codes "file"))
medium_known true b d = refl
medium_known false true d = refl
medium_known false false true = refl
medium_known false false false = refl

pub previews :
    (c : FfmpegConverter) (mime : Text)
    → can_create_preview c mime
      ≡ (is_ffmpeg_available c && not (text_eq (get_content_type mime) (codes "file")))
unfolding can_create_preview get_content_type
previews c mime =
    let norm = normalize_mime_type mime in
    let known =
      medium_known (has_prefix norm (codes "image/")) (has_prefix norm (codes "video/"))
        (has_prefix norm (codes "audio/")) in
    elim (Bool-cases (is_ffmpeg_available c)) [ inl e ↦ rw e known | inr e ↦ rw e refl ]

no_target : (s : Text) → is_empty s ≡ true → normalize_mime_type s ≡ []
unfolding normalize_mime_type clean_mime resolve_alias
no_target [] h = refl
no_target (c ∷ s) h = cc h

is_empty→≡ : (s : Text) → is_empty s ≡ true → s ≡ []
is_empty→≡ [] h = refl
is_empty→≡ (x ∷ s) h = cc h

and_false : (b : Bool) → (b && false) ≡ false
and_false true = refl
and_false false = refl

module _ (c : FfmpegConverter) (db : Database) (mime : Text) where
  module _ (m : normalize_mime_type mime ≡ mime)
      (t : normalize_mime_type (normalize_mime_type db.config.auto_conversion)
        ≡ normalize_mime_type db.config.auto_conversion)
      (original user : Text) where
    abbrev pub plan : ProcessingPlan
    plan = determine_plan (converter_of c) db mime original user

    -- Whether the plan needs a conversion, and then into what, and whether that is possible.
    pub decided :
        (plan.needs_conversion ≡ not (text_eq mime (wanted_type db mime)))
        × (plan.needs_conversion ≡ true
            → (plan.can_convert ≡ convertible c mime (wanted_type db mime))
              × (plan.target_mime_type ≡ wanted_type db mime))
    unfolding determine_plan
    decided = elim (Bool-cases (is_empty db.config.auto_conversion)) [
      | inl none_wanted ↦
          rw (none_wanted, no_target db.config.auto_conversion none_wanted, text_eq_refl mime)
            (refl, λ h. absurd (cc h))
      | inr wanted ↦ elim (Bool-cases (is_empty (normalize_mime_type db.config.auto_conversion))) [
        | inl no_type ↦
            let e = is_empty→≡ (normalize_mime_type db.config.auto_conversion) no_type in
            rw (wanted, e, same_type c (normalize_mime_type mime), text_eq_refl mime)
              (refl, λ h. absurd (cc h))
        | inr given ↦ rw (wanted, m, given, other_type c mime _ given m t) (refl, λ h. (refl, refl))
      ]
    ]

    pub shape :
        (plan.init_mime_type ≡ normalize_mime_type mime)
        × (plan.init_file_name ≡ initial_name original user)
        × (plan.result_mime_type ≡ (
            if plan.can_convert && plan.needs_conversion
            then plan.target_mime_type
            else normalize_mime_type mime))
        × (plan.final_file_name ≡ (
            if plan.needs_conversion && plan.can_convert
            then replace_extension
                (initial_name original user)
                (get_extension_for_mime_type plan.target_mime_type)
            else initial_name original user))
        × (plan.can_gen_preview ≡ can_create_preview c plan.result_mime_type)
        × (determine_plan (converter_of c) db mime (initial_name original user) [] ≡ plan)
    unfolding determine_plan initial_name
    shape = (refl, refl, refl, refl, refl, refl)

    -- What is stored under a plan that needs no conversion or a possible one.
    pub stored :
        (text_eq mime (wanted_type db mime) || convertible c mime (wanted_type db mime)) ≡ true
        → (plan.result_mime_type ≡ wanted_type db mime)
          × (plan.final_file_name ≡ (
              if text_eq mime (wanted_type db mime)
              then initial_name original user
              else replace_extension
                  (initial_name original user)
                  (get_extension_for_mime_type (wanted_type db mime))))
    stored h = elim (Bool-cases (text_eq mime (wanted_type db mime))) [
      | inl same ↦
          let idle : plan.needs_conversion ≡ false = decided.0 ∙ rw same in
          (
            shape.2 ∙ rw (idle, m, and_false plan.can_convert) (text_eq→≡ mime _ same),
            shape.3 ∙ rw (idle, same),
          )
      | inr other ↦
          let busy : plan.needs_conversion ≡ true = decided.0 ∙ rw other in
          let d = decided.1 busy in
          let possible : plan.can_convert ≡ true = d.0 ∙ (rw other at h) in
          (
            shape.2 ∙ rw (possible, busy) d.1,
            shape.3
                ∙ rw (possible, busy, other)
                    (ap
                      (λ t.
                        replace_extension (initial_name original user)
                          (get_extension_for_mime_type t))
                      d.1),
          )
    ]

  pub wanted_again : wanted_type db (wanted_type db mime) ≡ wanted_type db mime
  wanted_again = elim (Bool-cases (is_empty (normalize_mime_type db.config.auto_conversion))) [
    | inl e ↦ rw e
    | inr e ↦ rw e
  ]
