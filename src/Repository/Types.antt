-- ===== src/Repository/Types.antt =====
-- internal/repository/models.go, entrystatus.go and the row layout of an entry table.
use media_hub_oss.Prelude.{ℕ, Bool, true, false, Option, List, Result}
use media_hub_oss.Prelude.Text.{Text}

pub data EntryStatus : Type 0 where
  ready processing error deleting queued : EntryStatus

-- The code of a status, as it is stored in a row.
unfoldable pub status_code : EntryStatus → ℕ
status_code ready = 0
status_code processing = 1
status_code error = 2
status_code deleting = 3
status_code queued = 4

abbrev pub status_eq : EntryStatus → EntryStatus → Bool
status_eq ready ready = true
status_eq processing processing = true
status_eq error error = true
status_eq deleting deleting = true
status_eq queued queued = true
status_eq _ _ = false

pub data CustomFieldType : Type 0 where
  unknown text integer real boolean coordinate : CustomFieldType

abbrev pub is_coordinate : CustomFieldType → Bool
is_coordinate coordinate = true
is_coordinate _ = false

pub record CustomFieldDef : Type 0 where
  pub id : ℕ
  pub name : Text
  pub type : CustomFieldType
  pub is_indexed : Bool

-- A field value of a request: absent, a string, number or Boolean by its text, or a JSON object.
pub data Value : Type 0 where
  null : Value
  scalar : Text → Value
  object : List (Text × Text) → Value

-- The columns behind custom fields: `cf_<id>`, `cf_<id>_lat` and `cf_<id>_lng`.
pub data Column : Type 0 where
  plain latitude longitude : ℕ → Column

pub record DatabaseConfig : Type 0 where
  pub create_preview : Bool
  pub auto_conversion : Text

-- Durations in nanoseconds; `last_hk_run` in milliseconds since 1970.
pub record DatabaseHk : Type 0 where
  pub interval : ℕ
  pub disk_space : ℕ
  pub max_age : ℕ
  pub last_hk_run : ℕ

pub record DatabaseStats : Type 0 where
  pub entry_count : ℕ
  pub total_disk_space_bytes : ℕ
  pub queued_count : ℕ

pub record Database : Type 0 where
  pub id : Text
  pub name : Text
  pub content_type : Text
  pub n_max_queued : ℕ
  pub config : DatabaseConfig
  pub housekeeping : DatabaseHk
  pub custom_fields : List CustomFieldDef
  pub stats : DatabaseStats

-- Times in milliseconds; a missing timestamp is `none`. An `id` of 0 is one not yet given.
pub record Entry : Type 0 where
  pub id : ℕ
  pub file_name : Text
  pub size : ℕ
  pub preview_size : ℕ
  pub timestamp : Option ℕ
  pub created_at : ℕ
  pub updated_at : ℕ
  pub mime_type : Text
  pub status : EntryStatus
  pub media_fields : List (Text × Value)
  pub custom_fields : List (Text × Value)

pub record DeletedEntryMeta : Type 0 where
  pub id : ℕ
  pub filesize : ℕ
  pub preview_size : ℕ

-- A row of the table `entries_<id>`.
pub record Row : Type 0 where
  pub id : ℕ
  pub filesize : ℕ
  pub preview_filesize : ℕ
  pub filename : Text
  pub timestamp : ℕ
  pub created_at : ℕ
  pub updated_at : ℕ
  pub mime_type : Text
  pub status : EntryStatus
  pub media : List (Text × Value)
  pub custom : List (Column × Value)

-- One media database: its row of `databases`, its entry table in the order of the primary key, and
-- the last key that AUTOINCREMENT gave out.
pub record Store : Type 0 where
  pub stats : DatabaseStats
  pub rows : List Row
  pub last_id : ℕ
  pub custom_fields : List CustomFieldDef

-- What an operation meets outside the repository: the clock, the ULID library, the parser of
-- coordinates, and which calls of the SQL driver fail.
pub record Env : Type 0 where
  pub now : ℕ
  pub is_valid_ulid : Text → Bool
  pub parse_coordinate : Value → Result (Value × Value)
  pub begin_fails : Bool
  pub query_fails : Bool
  pub exec_fails : Bool
  pub result_fails : Bool
  pub stats_fails : Bool
  pub commit_fails : Bool
