-- ===== src/Lib.antt =====
-- MediaHub: a server that stores media files in databases, converts them in the background and
-- keeps each database within its limits.
--
-- The parts modelled here and how they meet. An upload gets a conversion plan and a slot, or is put
-- into the queue of its database; workers claim queued entries; deletions and housekeeping remove
-- entries and their files; all of them go through the entry repository and the file storage.
--
--   Media         internal/media/utils.go: MIME types and content types;
--                 internal/media/ffmpeg/capabilities.go: what FFmpeg can convert (Capabilities)
--   Repository    internal/repository (models, query options) and
--                 internal/repository/sqlite/entries.go: the entry table and the statistics;
--                 internal/repository/sqlite/token.go: refresh tokens
--   Storage       internal/storage/localstorage: which files there are, and their sizes
--   Deletion      internal/shared/deletion.go: deletion in two phases over both
--   Housekeeping  internal/housekeeping/housekeeping.go: the age and disk-space sweeps
--   Processing    internal/processing: slots (slots.go), backoff (retry.go), the dispatch guard, a
--                 dispatch pass and a worker's run (worker.go), conversion plans (plan.go), the steps
--                 that pipelines share (utils.go, in Pipeline), and the pipelines of an upload
--                 (incoming.go) and of a background worker (finalize.go)
--   Recovery      internal/cli/recovery/entry_status_correction.go: entries in flight after a restart;
--                 integritycheck.go: rows against files (Integrity)
--   Access        internal/repository/accessgrant.go and account_type.go, the permission holders
--                 (internal/httpserver/utils/permissions.go) and internal/httpserver/auth
--   Users         internal/repository/sqlite/user.go: users and their permissions, with the handlers of
--                 internal/httpserver/userhandler/users.go (Reads, Requests)
--   ApiKeys       internal/repository/sqlite/api_key.go, with the handlers of
--                 internal/httpserver/userhandler/api_keys.go (Requests)
--   Sessions      internal/httpserver/tokenhandler/token.go and utils.go: login, refresh, logout
--   Parsers       internal/shared/parsers.go: sizes and durations
--   Usernames     internal/repository/oidc.go: user names of new OIDC accounts
--   Http          internal/httpserver/entryhandler/utils_http.go: Range headers, archive names
--   Examples      concrete runs
--
-- State. A media database is a `Store`: its statistics columns, the rows of `entries_<id>` in the
-- order of the primary key, and the last key given out. A repository operation is one transaction,
-- as a function of the store with an error or a new store for its result: after an error the store
-- is the old one, since the deferred Rollback undoes the statements. `Env` says which statements
-- fail, so a theorem for all `Env` covers every combination of failures. `Vault` adds the files and
-- previews. Goroutines that share memory are step relations (Processing.Slots.Bounds and
-- Processing.Trigger), one step for each atomic action or critical section.
--
-- Pipelines. A step of a pipeline takes a `Vault` to a result or an error and a new one, so what a
-- step changed before a later error stays, as in the code. `Events` says for one upload which calls
-- of the repository, the converter and the file system fail, and the sizes that come out. `Node` adds
-- the slots. A goroutine that an upload leaves is a `Job`, which `run_job` runs to its end; the
-- theorems on `upload` are about one upload with its goroutine and nothing else at the same time,
-- while the interleaving of slots, of claims and of dispatch passes is in Processing.Slots.Bounds,
-- Repository.Queue and Processing.Trigger. A worker's run starts where its claim left the entry.
--
-- Users. `Tables` holds users, permissions and refresh tokens, `KeyTable` the API keys; `Driver`,
-- `KeyEnv` and `Calls` say which statements fail. A handler that writes is what it decides before its
-- first write and then the writes, whose effects stay when a later one fails. Requests are served one
-- after another: two at once, where one counts the admins before the other's deletion, are not.
--
-- Numbers. Sizes are uint64 and counters int64 in the code; sums that can wrap are written modulo
-- 2^64, and `IsConsistent` asks for a recorded total below 2^63. Entry ids are positive, as
-- AUTOINCREMENT gives them. Durations of the backoff are int64 nanoseconds with the wrap-around of
-- the shift. Times before 1970 do not occur.
--
-- Fuel. The sweeps of housekeeping are loops of Go without a bound; they run on one unit of fuel for
-- each round, and get one more than there are rows. A round that goes on has deleted a row, so this
-- is enough. The search for a free user name has no bound either; it gets one more unit than there
-- are names. The scans of recovery get one more unit than there are rows, for pages of a thousand.
--
-- Parameters: the ULID library, the parser of coordinates (floating point), the runs of FFmpeg, the
-- clock, the file system, and for requests the libraries for JWT, base64, SHA-256 and bcrypt. Text
-- functions of Go are modelled on ASCII, with the two letters beyond it that `[a-z]` matches
-- without regard to case.
--
-- Not modelled: the PostgreSQL repository and the S3 storage, which offer the same operations
-- through other libraries; the tables of databases and of OIDC identities, and the OIDC flow;
-- SearchEntries; on-the-fly conversions of downloads; the HTTP handlers of entries and databases;
-- the command line; migrations; logging; the contents of files.
pub mod Access
pub mod Parsers
pub mod Usernames
pub mod Users
pub mod ApiKeys
pub mod Sessions
pub mod Prelude
pub mod Media
pub mod Repository
pub mod Storage
pub mod Deletion
pub mod Housekeeping
pub mod Processing
pub mod Recovery
pub mod Http
pub mod Examples
