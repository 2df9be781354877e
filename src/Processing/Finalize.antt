-- ===== src/Processing/Finalize.antt =====
-- internal/processing/finalize.go: the pipeline of a background worker, on its temporary file.
pub mod Settled
use media_hub_oss.Prelude.{
  ℕ, Bool, true, false, not, ◌||◌, ◌&&◌, Option, none, some, if◌then◌else◌, Result, ok, err, Error,
}
use media_hub_oss.Media.Mime.{get_metadata_fields}
use media_hub_oss.Repository.Types.{ready, Database, Entry}
use media_hub_oss.Repository.Entries.{update_entry}
use media_hub_oss.Deletion.{Vault}
use media_hub_oss.Processing.Plan.{ProcessingPlan}
use media_hub_oss.Processing.Pipeline.{
  Events, M, ◌>>=◌, ◌>>◌, done, fail, fail_if, given, repo, ignore, on_error, write_step,
  fail_processed_entry, generate_and_store_preview, has_fields, with_probed,
}

-- The size of the file to store: the conversion's output, or the temporary file itself.
unfoldable pub convert_file : Events → ProcessingPlan → M ℕ
convert_file ev plan =
    if plan.wants_conversion && plan.needs_conversion
    then (do
      fail_if (not plan.can_convert) Error.failure
      fail_if ev.temp_fails Error.failure
      given ev.converted Error.failure)
    else done ev.original

abbrev size_or : Result ℕ → ℕ → ℕ
size_or (ok n) old = n
size_or (err e) old = old

-- A preview that fails is logged only.
unfoldable pub preview_file : Events → ProcessingPlan → Entry → M ℕ
preview_file ev plan entry v =
    let (r, w) = generate_and_store_preview ev entry.id v in
    if plan.wants_preview && plan.can_gen_preview
    then (ok (size_or r entry.preview_size), w)
    else (ok entry.preview_size, v)

abbrev pub finished_entry : ProcessingPlan → ℕ → Entry → Entry
finished_entry plan size entry = record entry {
  status = ready;
  size = size;
  mime_type = plan.result_mime_type;
  file_name = plan.final_file_name;
}

-- Each failure is handled with the entry as it is by then.
unfoldable pub finalize_entry_file : Events → Database → Entry → ProcessingPlan → M (Unit {0})
finalize_entry_file ev db entry plan = do
  size ← on_error (convert_file ev plan) (λ e. fail_processed_entry ev db entry)
  let probed = with_probed ev db entry
  preview_size ← preview_file ev plan probed
  let previewed = record probed { preview_size = preview_size }
  written ←
      on_error (do fail_if ev.open_fails Error.failure; write_step ev.write_fails previewed.id size)
        (λ e. fail_processed_entry ev db previewed)
  on_error (do repo (update_entry ev.finish db.id (finished_entry plan written previewed)); done tt)
      (λ e. fail_processed_entry ev db (finished_entry plan written previewed))
