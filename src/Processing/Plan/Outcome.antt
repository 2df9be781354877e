-- ===== src/Processing/Plan/Outcome.antt =====
-- What DetermineConversionPlan answers with the FFmpeg converter, and that plans for the same upload
-- agree later on.
use media_hub_oss.Prelude.{
  ◌≡◌, ◌⊎◌, refl, sym, ap, ◌∙◌, arith, Bool, true, false, not, ◌&&◌, ◌||◌, [], Result, ok, err,
  Error, if◌then◌else◌, Bool-cases, inl, inr,
}
use media_hub_oss.Prelude.Text.{Text, codes, text_eq, text_eq_refl, is_empty}
use media_hub_oss.Media.Mime.{normalize_mime_type, get_content_type, is_mime_of_type}
use media_hub_oss.Media.Capabilities.{FfmpegConverter, is_ffmpeg_available}
use media_hub_oss.Repository.Types.{Database, Entry}
use media_hub_oss.Processing.Plan.{
  converter_of, ProcessingPlan, replace_extension, get_extension_for_mime_type, initial_name,
  determine_plan, determine_conversion_plan, determine_plan_for_entry,
}
use media_hub_oss.Processing.Plan.Targets.{
  wanted_type, convertible, previews, plan, decided, shape, stored, wanted_again,
}

or_cases : (a b : Bool) → (not a ≡ false) ⊎ (b ≡ true) → (a || b) ≡ true
or_cases a b (inl h) = ground (arith, h)
or_cases a b (inr h) = ground (arith, h)

neither : (a b : Bool) → not a ≡ true → b ≡ false → (a || b) ≡ false
neither a b h k = ground (arith, h, k)

-- What the plan of an accepted upload promises; `e` is any entry, whose type and name are replaced.
pub record IsServing (c : FfmpegConverter) (db : Database) (mime name : Text) (e : Entry)
    (p : ProcessingPlan) : Type 0 where
  -- the stored file has the type that the database asks for, and the name that goes with it
  pub stored_type : p.result_mime_type ≡ wanted_type db mime
  pub stored_name : p.final_file_name ≡ (
      if text_eq mime (wanted_type db mime)
      then name
      else replace_extension name (get_extension_for_mime_type (wanted_type db mime)))
  -- a file is converted exactly where it has another type
  pub converted : p.needs_conversion ≡ not (text_eq mime (wanted_type db mime))
  -- the preview is that of the stored file
  pub previewed : p.can_gen_preview ≡ (
      is_ffmpeg_available c
      && not (text_eq (get_content_type (wanted_type db mime)) (codes "file")))
  -- the entry of the queued upload gives a worker the same plan, and that of the finished file none
  -- that converts it again
  pub resumed :
      determine_plan_for_entry
        (converter_of c)
        db
        (record e { mime_type = p.init_mime_type; file_name = p.init_file_name })
      ≡ p
  pub finished :
      ProcessingPlan.needs_conversion (
        determine_plan_for_entry
          (converter_of c)
          db
          (record e { mime_type = p.result_mime_type; file_name = p.final_file_name }))
      ≡ false

-- The four answers to an upload of the type `mime`, each with the case in which it is given.
pub data Answered (c : FfmpegConverter) (db : Database) (mime name : Text) (e : Entry)
    : Result ProcessingPlan → Type 0 where
  accepted :
      {p : ProcessingPlan}
      → is_mime_of_type db.content_type mime ≡ ok true
      → (text_eq mime (wanted_type db mime) || convertible c mime (wanted_type db mime)) ≡ true
      → IsServing c db mime name e p
      → Answered c db mime name e (ok p)
  of_other_type :
      is_mime_of_type db.content_type mime ≡ ok false
      → Answered c db mime name e (err Error.bad_mime_type)
  of_no_content :
      {x : Error} → is_mime_of_type db.content_type mime ≡ err x → Answered c db mime name e (err x)
  impossible :
      is_mime_of_type db.content_type mime ≡ ok true
      → (text_eq mime (wanted_type db mime) || convertible c mime (wanted_type db mime)) ≡ false
      → Answered c db mime name e (err Error.failure)

module _ (c : FfmpegConverter) (db : Database) (mime original user : Text) (e : Entry)
    (m : normalize_mime_type (normalize_mime_type mime) ≡ normalize_mime_type mime)
    (t : normalize_mime_type (normalize_mime_type db.config.auto_conversion)
      ≡ normalize_mime_type db.config.auto_conversion) where
  abbrev norm : Text
  norm = normalize_mime_type mime

  abbrev made : ProcessingPlan
  made = plan c db norm m t original user

  wanted-normal : normalize_mime_type (wanted_type db norm) ≡ wanted_type db norm
  wanted-normal = elim (Bool-cases (is_empty (normalize_mime_type db.config.auto_conversion))) [
    | inl e ↦ rw e m
    | inr e ↦ rw e t
  ]

  made-IsServing :
      (text_eq norm (wanted_type db norm) || convertible c norm (wanted_type db norm)) ≡ true
      → IsServing c db norm (initial_name original user) e made
  unfolding determine_plan_for_entry
  made-IsServing h =
      let s = shape c db norm m t original user in
      let st = stored c db norm m t original user h in
      record {
        stored_type = st.0;
        stored_name = st.1;
        converted = (decided c db norm m t original user).0;
        previewed = s.4 ∙ rw st.0 (previews c (wanted_type db norm));
        resumed =
            ap (λ n. determine_plan (converter_of c) db n made.init_file_name []) (s.0 ∙ m)
            ∙ ap (λ n. determine_plan (converter_of c) db norm n []) s.1
            ∙ s.5;
        finished =
            ap
              (λ n.
                ProcessingPlan.needs_conversion
                  (determine_plan (converter_of c) db n made.final_file_name []))
              st.0
            ∙ (decided c db (wanted_type db norm) wanted-normal t made.final_file_name []).0
            ∙ rw (wanted_again c db norm, text_eq_refl (wanted_type db norm));
      }

  chosen :
      is_mime_of_type db.content_type norm ≡ ok true
      → Answered c db norm
          (initial_name original user)
          e
          (if made.needs_conversion && not made.can_convert then err Error.failure else ok made)
  chosen valid = by_plan made.needs_conversion made.can_convert refl refl
    where
      same : Bool
      same = text_eq norm (wanted_type db norm)

      converts : Bool
      converts = convertible c norm (wanted_type db norm)

      needed : made.needs_conversion ≡ not same
      needed = (decided c db norm m t original user).0

      possible : made.needs_conversion ≡ true → made.can_convert ≡ converts
      possible n = ((decided c db norm m t original user).1 n).0

      by_plan :
          (needs can : Bool)
          → made.needs_conversion ≡ needs
          → made.can_convert ≡ can
          → Answered c db norm
              (initial_name original user)
              e
              (if needs && not can then err Error.failure else ok made)
      by_plan false can n k =
          let ready = or_cases same converts (inl (sym needed ∙ n)) in
          accepted valid ready (made-IsServing ready)
      by_plan true true n k =
          let ready = or_cases same converts (inr (sym (possible n) ∙ k)) in
          accepted valid ready (made-IsServing ready)
      by_plan true false n k =
          impossible valid (neither same converts (sym needed ∙ n) (sym (possible n) ∙ k))

  answers :
      (r : Result Bool)
      → is_mime_of_type db.content_type norm ≡ r
      → Answered c db norm (initial_name original user) e (elim r [
        | err x ↦ err x
        | ok valid ↦
            if not valid
            then err Error.bad_mime_type
            else if made.needs_conversion && not made.can_convert
            then err Error.failure
            else ok made
      ])
  answers (err x) eq = of_no_content eq
  answers (ok false) eq = of_other_type eq
  answers (ok true) eq = chosen eq

  -- DetermineConversionPlan with FFmpeg, for a type and a configured target that a second
  -- normalisation leaves as they are: the upload is refused with ErrBadMimeType exactly where its
  -- type is not of the database's content type, and with another error exactly where it has another
  -- type than the database asks for and FFmpeg cannot convert it; otherwise the plan leads to a
  -- stored file of the type that the database asks for, with the name and the preview that go with
  -- it, a worker that takes up the queued upload makes the same plan, and a plan for the finished
  -- entry needs no conversion any more.
  pub determine_conversion_plan-Answered :
      Answered c db norm
        (initial_name original user)
        e
        (determine_conversion_plan (converter_of c) db mime original user)
  unfolding determine_conversion_plan
  determine_conversion_plan-Answered = answers (is_mime_of_type db.content_type norm) refl
