-- ===== src/Processing/Pipeline.antt =====
-- internal/processing/utils.go and what the pipelines of incoming.go and finalize.go share.
-- A step changes the vault and gives a result or an error; what it changed before an error stays.
pub mod Posts
pub mod Keeping
pub mod Settling
use media_hub_oss.Prelude.{
  ℕ, Bool, true, false, not, ◌||◌, ◌&&◌, Option, none, some, List, [], ◌∷◌, if◌then◌else◌, Result,
  ok, err, Error,
}
use media_hub_oss.Prelude.Text.{Text, codes}
use media_hub_oss.Media.Mime.{FieldType, uint8, uint64, float64, FieldDef, get_metadata_fields}
use media_hub_oss.Repository.Types.{
  ready, processing, error, Value, scalar, Database, Entry, Store, Env,
}
use media_hub_oss.Repository.Entries.{
  create_entry, update_entry, update_entries_status, delete_entry,
}
use media_hub_oss.Storage.{write_file, remove_file}
use media_hub_oss.Deletion.{Vault}
use media_hub_oss.Processing.Plan.{ProcessingPlan}

pub record EntryRequest : Type 0 where
  pub timestamp : Option ℕ
  pub file_name : Text
  pub custom_fields : List (Text × Value)

-- A preview's way into storage: the bytes that the generator made, and what fails.
pub record PreviewEvents : Type 0 where
  pub produced : ℕ
  pub generator_fails : Bool
  pub write_fails : Bool

-- What a pipeline meets outside: the driver in each call, the converter, and the file system.
pub record Events : Type 0 where
  pub create : Env
  pub count : Env
  pub enqueue : Env
  pub finish : Env
  pub fail : Env
  pub discard : Env
  pub mark : Env
  -- the size of the file, and of what a conversion makes of it, if it succeeds
  pub original : ℕ
  pub converted : Option ℕ
  pub probed : Option (List (Text × Value))
  pub preview : PreviewEvents
  pub seek_fails : Bool
  pub store_seek_fails : Bool
  pub temp_fails : Bool
  pub open_fails : Bool
  pub write_fails : Bool
  pub broken : ℕ → Bool
  pub preview_broken : ℕ → Bool

abbrev pub M : Type 0 → Type 0
M A = Vault → Result A × Vault

-- The program's order of statements: an error ends the function.
infixl 5 ◌>>=◌ ◌>>◌
abbrev pub follow : {A B : Type 0} → Result A × Vault → (A → M B) → Result B × Vault
follow (ok a, v) next = next a v
follow (err e, v) next = (err e, v)

abbrev pub ◌>>=◌ : {A B : Type 0} → M A → (A → M B) → M B
◌>>=◌ step next v = follow (step v) next

abbrev pub ◌>>◌ : {A B : Type 0} → M A → M B → M B
◌>>◌ step rest = step >>= λ _. rest

abbrev pub done : {A : Type 0} → A → M A
done a v = (ok a, v)

abbrev pub fail : {A : Type 0} → Error → M A
fail e v = (err e, v)

abbrev pub fail_if : Bool → Error → M (Unit {0})
fail_if true e = fail e
fail_if false e = done tt

abbrev pub given : {A : Type 0} → Option A → Error → M A
given none e = fail e
given (some a) e = done a

abbrev pub relay : {A : Type 0} → Result A → M A
relay r v = (r, v)

abbrev pub put_store : {A : Type 0} → Vault → Result (A × Store) → Result A × Vault
put_store v (ok (a, s)) = (ok a, record v { store = s })
put_store v (err e) = (err e, v)

-- A call of the repository.
abbrev pub repo : {A : Type 0} → (Store → Result (A × Store)) → M A
repo op v = put_store v (op v.store)

-- `_ = step`
abbrev pub ignore : {A : Type 0} → M A → M (Unit {0})
ignore step v = (ok tt, (step v).1)

-- `if err != nil { handler(); return err }`
abbrev pub after_error : {A : Type 0} → Result A × Vault → (Error → M (Unit {0})) → Result A × Vault
after_error (ok a, v) handler = (ok a, v)
after_error (err e, v) handler = (err e, (handler e v).1)

abbrev pub on_error : {A : Type 0} → M A → (Error → M (Unit {0})) → M A
on_error step handler v = after_error (step v) handler

-- Storage.Write gives the number of bytes.
unfoldable pub write_step : Bool → ℕ → ℕ → M ℕ
write_step fails id size v =
    if fails
    then (err Error.failure, v)
    else (ok size, record v { files = write_file id size v.files })

unfoldable pub remove_step : (ℕ → Bool) → ℕ → M (Unit {0})
remove_step broken id v =
    let (removed, files) = remove_file broken id v.files in
    (if removed then ok tt else err Error.failure, record v { files = files })

unfoldable pub remove_preview_step : (ℕ → Bool) → ℕ → M (Unit {0})
remove_preview_step broken id v =
    let (removed, previews) = remove_file broken id v.previews in
    (if removed then ok tt else err Error.failure, record v { previews = previews })

-- By the types of the fields that GetMetadataFields gives.
unfoldable pub default_value : FieldType → Value
default_value uint8 = scalar (codes "0")
default_value uint64 = scalar (codes "0")
default_value float64 = scalar (codes "-1")

unfoldable pub default_values : List FieldDef → List (Text × Value)
unfolding default_value
default_values [] = []
default_values (f ∷ fs) = (f.name, default_value f.type) ∷ default_values fs

unfoldable pub default_media_fields : Text → Result (List (Text × Value))
unfolding default_values
default_media_fields content_type = elim (get_metadata_fields content_type) [
  | ok fields ↦ ok (default_values fields)
  | err e ↦ err e
]

unfoldable pub preliminary_entry :
    EntryRequest → ProcessingPlan → Bool → List (Text × Value) → Entry
preliminary_entry req plan use_result media_fields = record {
  id = 0;
  file_name = if use_result then plan.final_file_name else plan.init_file_name;
  size = 0;
  preview_size = 0;
  timestamp = req.timestamp;
  created_at = 0;
  updated_at = 0;
  mime_type = if use_result then plan.result_mime_type else plan.init_mime_type;
  status = processing;
  media_fields = media_fields;
  custom_fields = req.custom_fields;
}

unfoldable pub create_preliminary_entry :
    Events → Database → EntryRequest → ProcessingPlan → Bool → M Entry
create_preliminary_entry ev db req plan use_result = do
  media_fields ← relay (default_media_fields db.content_type)
  repo (create_entry ev.create db (preliminary_entry req plan use_result media_fields))

-- failUploadEntry, in the incoming pipeline.
unfoldable pub fail_upload_entry : Events → Database → Entry → M (Unit {0})
fail_upload_entry ev db entry = do
  ignore (remove_step ev.broken entry.id)
  ignore (repo (update_entry ev.fail db.id (record entry { size = 0; status = error })))

-- failProcessedEntry, in the background; the registry of retries is in Processing.Worker.
unfoldable pub fail_processed_entry : Events → Database → Entry → M (Unit {0})
fail_processed_entry ev db entry = do
  ignore (remove_preview_step ev.preview_broken entry.id)
  ignore (repo (update_entry ev.fail db.id (record entry { preview_size = 0; status = error })))

unfoldable pub store_processed_stream : Events → Database → Entry → ℕ → M ℕ
store_processed_stream ev db entry size =
    on_error (do fail_if ev.store_seek_fails Error.failure; write_step ev.write_fails entry.id size)
      (λ e. fail_upload_entry ev db entry)

-- A generator that fails midway has left a partial preview, which is removed.
unfoldable pub generate_and_store_preview : Events → ℕ → M ℕ
generate_and_store_preview ev id v =
    if ev.preview.write_fails
    then (err Error.failure, v)
    else let stored = record v { previews = write_file id ev.preview.produced v.previews } in
      if ev.preview.generator_fails
      then (err Error.failure, (remove_preview_step ev.preview_broken id stored).1)
      else (ok ev.preview.produced, stored)

abbrev pub has_fields : Result (List FieldDef) → Bool
has_fields (ok (f ∷ fs)) = true
has_fields _ = false

abbrev probed_or : Option (List (Text × Value)) → List (Text × Value) → List (Text × Value)
probed_or none old = old
probed_or (some fields) old = fields

-- The entry with the metadata that a probe finds, for content types that define fields.
abbrev pub with_probed : Events → Database → Entry → Entry
with_probed ev db entry = record entry {
  media_fields =
      if has_fields (get_metadata_fields db.content_type)
      then probed_or ev.probed entry.media_fields
      else entry.media_fields;
}
