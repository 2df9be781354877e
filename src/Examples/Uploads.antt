-- ===== src/Examples/Uploads.antt =====
-- An upload to the server, with a preview, where storage fails; and one that is queued.
use media_hub_oss.Prelude.{◌≡◌, refl, true, false, none, some, [], ap, arith}
use media_hub_oss.Prelude.Text.{codes}
use media_hub_oss.Repository.Types.{ready, processing}
use media_hub_oss.Repository.Table.{find_row}
use media_hub_oss.Repository.Effects.{status_in}
use media_hub_oss.Storage.{file_size}
use media_hub_oss.Processing.Plan.{Converter}
use media_hub_oss.Processing.Pipeline.{EntryRequest, Events}
use media_hub_oss.Processing.Pipeline.Keeping.{row_of, is_processing}
use media_hub_oss.Processing.Pipeline.Settling.{CallsWork}
use media_hub_oss.Processing.Incoming.{Node, upload}
use media_hub_oss.Processing.Incoming.Careful.{IsServed}
use media_hub_oss.Processing.Incoming.Uploads.{upload_preserves, upload-IsServed, upload_settles}
use media_hub_oss.Processing.Incoming.SlotUse.{SameUse, upload-SameUse}
use media_hub_oss.Examples.{works, works-Works, image_db, row, vault}

-- A converter that can do everything; photos are not converted here, but get a preview.
abbrev pub converter : Converter
converter = record {
  check = λ from to. record { needs_conversion = false; can_convert = true };
  can_create_preview = λ mime. true;
}

abbrev request : EntryRequest
request = record { timestamp = some 9; file_name = codes "b.png"; custom_fields = [] }

-- The original cannot be written to storage.
abbrev pub full_disk : Events
full_disk = record {
  create = works;
  count = works;
  enqueue = works;
  finish = works;
  fail = works;
  discard = works;
  mark = works;
  original = 50;
  converted = none;
  probed = none;
  preview = record { produced = 5; generator_fails = false; write_fails = false };
  seek_fails = false;
  store_seek_fails = false;
  temp_fails = false;
  open_fails = false;
  write_fails = true;
  broken = λ id. false;
  preview_broken = λ id. false;
}

abbrev free_node : Node
free_node = record {
  slots = record {
    n_ffmpeg_async = 1;
    n_ffmpeg_total = 2;
    active_async = 0;
    active_total = 1;
    has_queued_entries = false;
  };
  vault = vault;
}

full_disk-CallsWork : CallsWork full_disk image_db
full_disk-CallsWork = record { finish = works-Works; fail = works-Works; discard = works-Works }

vault-IsServed : IsServed vault
unfolding find_row file_size
vault-IsServed j h = ground (arith, h)

abbrev after : Node
after =
    upload converter full_disk image_db request false (codes "image/png") (codes "b.png") free_node

first_row : row_of 1 vault ≡ some (row 1 ready)
unfolding find_row
first_row = refl

upload_preserves_example :
    (row_of 1 after.vault ≡ some (row 1 ready))
    × (file_size 1 after.vault.files ≡ file_size 1 vault.files)
upload_preserves_example =
    upload_preserves converter full_disk image_db request false (codes "image/png") (codes "b.png")
      free_node 1 (row 1 ready) first_row

upload-IsServed_example : IsServed after.vault
upload-IsServed_example =
    upload-IsServed converter full_disk image_db request false (codes "image/png") (codes "b.png")
      free_node vault-IsServed

-- Entry 2 was processing before, and is so after.
still_processing : status_in is_processing (row_of 2 after.vault) ≡ true
unfolding find_row
still_processing =
    ap (status_in is_processing)
      (upload_preserves converter full_disk image_db request false (codes "image/png")
        (codes "b.png") free_node 2 (row 2 processing) refl).0

upload_settles_example : status_in is_processing (row_of 2 vault) ≡ true
upload_settles_example =
    upload_settles converter full_disk image_db request false (codes "image/png") (codes "b.png")
      free_node 2 full_disk-CallsWork still_processing

upload-SameUse_example : SameUse free_node.slots after.slots
upload-SameUse_example =
    upload-SameUse converter full_disk image_db request false (codes "image/png") (codes "b.png")
      free_node
