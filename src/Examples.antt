-- ===== src/Examples.antt =====
-- Concrete runs: the test data that the modules below share.
mod Histories
mod Deletions
mod Processors
mod Conversions
mod Triggers
mod Downloads
mod Uploads
mod Requests
mod Texts
mod Workers
mod Restarts
mod People
mod Checks
mod Keys
use media_hub_oss.Prelude.{
  ℕ, refl, Bool, true, false, none, some, List, [], ◌∷◌, ◌==◌, Result, ok, err, Error,
}
use media_hub_oss.Prelude.Text.{Text, codes}
use media_hub_oss.Repository.Types.{
  EntryStatus, ready, processing, error, queued, null, Value, Database, Entry, Row, Store, Env,
}
use media_hub_oss.Repository.Queue.{Works}
use media_hub_oss.Storage.{Files}
use media_hub_oss.Deletion.{Vault, Around}

-- A call in which everything works.
abbrev pub works : Env
works = record {
  now = 1_000;
  is_valid_ulid = λ id. true;
  parse_coordinate = λ v. ok (v, v);
  begin_fails = false;
  query_fails = false;
  exec_fails = false;
  result_fails = false;
  stats_fails = false;
  commit_fails = false;
}

abbrev pub db_id : Text
db_id = codes "01J"

pub works-Works : Works works db_id
works-Works = record {
  valid = refl;
  begins = refl;
  queries = refl;
  execs = refl;
  results = refl;
  counts = refl;
  commits = refl;
}

abbrev pub image_db : Database
image_db = record {
  id = db_id;
  name = codes "photos";
  content_type = codes "image";
  n_max_queued = 5;
  config = record { create_preview = true; auto_conversion = codes "image/webp" };
  housekeeping = record { interval = 1; disk_space = 150; max_age = 0; last_hk_run = 0 };
  custom_fields = [];
  stats = record { entry_count = 3; total_disk_space_bytes = 330; queued_count = 0 };
}

abbrev pub picture : Entry
picture = record {
  id = 1;
  file_name = codes "a.png";
  size = 100;
  preview_size = 10;
  timestamp = some 7;
  created_at = 0;
  updated_at = 0;
  mime_type = codes "image/png";
  status = ready;
  media_fields = [];
  custom_fields = [];
}

abbrev pub row : ℕ → EntryStatus → Row
row id status = record {
  id = id;
  filesize = 100;
  preview_filesize = 10;
  filename = codes "a.png";
  timestamp = id;
  created_at = 0;
  updated_at = 0;
  mime_type = codes "image/png";
  status = status;
  media = [];
  custom = [];
}

abbrev pub store : Store
store = record {
  stats = record { entry_count = 3; total_disk_space_bytes = 330; queued_count = 0 };
  rows = row 1 ready ∷ row 2 processing ∷ row 3 error ∷ [];
  last_id = 3;
  custom_fields = [];
}

abbrev pub files : Files
files = (1, 100) ∷ (2, 100) ∷ (3, 100) ∷ []

abbrev pub vault : Vault
vault = record { store = store; files = files; previews = files }

abbrev pub all_works : Around
all_works = record {
  lock = works;
  commit = works;
  rollback = works;
  broken = λ id. false;
  preview_broken = λ id. false;
}

-- The file system refuses to remove the file of entry 3.
abbrev pub third_broken : Around
third_broken = record all_works { broken = λ id. id == 3 }
