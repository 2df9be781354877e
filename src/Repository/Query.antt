-- ===== src/Repository/Query.antt =====
-- internal/repository/query_options.go and GetEntries of internal/repository/sqlite/entries.go.
use media_hub_oss.Prelude.{
  ℕ, zero, suc, ℤ, pos, negsuc, Bool, true, false, ◌&&◌, ◌||◌, Option, none, some, List, [], ◌∷◌,
  leb, if◌then◌else◌, filter, take, drop, All, All-filter, All-take, All-drop, Result, ok, err,
  Error, ◌>>=◌, ◌>>◌, require, call, arith,
}
use media_hub_oss.Prelude.Answers.{Answers, answer, Answers-bind}
use media_hub_oss.Prelude.Text.{Text, codes, text_eq, one_of, to_lower, is_empty}
use media_hub_oss.Repository.Types.{EntryStatus, status_eq, Row, Store, Env}

-- Times in milliseconds since 1970; a zero time is `none`.
pub record QueryOptions : Type 0 where
  pub limit : ℤ
  pub offset : ℤ
  pub order : Text
  pub sort_by : Text
  pub time_field : Text
  pub t_start : Option ℕ
  pub t_end : Option ℕ
  pub statuses : List EntryStatus

abbrev default_limit : ℤ → ℤ
default_limit (pos zero) = pos 30
default_limit (pos (suc n)) = pos (suc n)
default_limit (negsuc n) = pos 30

abbrev default_offset : ℤ → ℤ
default_offset (pos n) = pos n
default_offset (negsuc n) = pos 0

-- A text option: its default where it is missing, and otherwise one of the allowed words.
abbrev choice : Text → Text → List Text → Result Text
choice given default allowed =
    if is_empty given
    then ok default
    else if one_of (to_lower given) allowed
    then ok (to_lower given)
    else err Error.failure

abbrev time_fields : List Text
time_fields = codes "timestamp" ∷ codes "created_at" ∷ codes "updated_at" ∷ []

unfoldable pub validate : QueryOptions → Result QueryOptions
validate o = do
  order ← choice o.order (codes "desc") (codes "asc" ∷ codes "desc" ∷ [])
  sort_by ←
      choice o.sort_by (codes "timestamp")
        (codes "timestamp" ∷ codes "created_at" ∷ codes "updated_at" ∷ codes "id" ∷ [])
  time_field ← choice o.time_field (codes "timestamp") time_fields
  ok (record o {
    limit = default_limit o.limit;
    offset = default_offset o.offset;
    order = order;
    sort_by = sort_by;
    time_field = time_field;
  })

-- A column of a row by its name; `validate` admits these four.
abbrev pub column : Text → Row → ℕ
column name r =
    if text_eq name (codes "id")
    then r.id
    else if text_eq name (codes "created_at")
    then r.created_at
    else if text_eq name (codes "updated_at")
    then r.updated_at
    else r.timestamp

-- ORDER BY; the rows of equal keys, which SQL leaves in any order, stand in that of the table.
unfoldable pub insert_by : (Row → Row → Bool) → Row → List Row → List Row
insert_by before n [] = n ∷ []
insert_by before n (r ∷ rs) = if before n r then n ∷ r ∷ rs else r ∷ insert_by before n rs

unfoldable pub order_by : (Row → Row → Bool) → List Row → List Row
unfolding insert_by
order_by before [] = []
order_by before (r ∷ rs) = insert_by before r (order_by before rs)

abbrev pub ordering : QueryOptions → Row → Row → Bool
ordering o r s =
    if text_eq o.order (codes "asc")
    then leb (column o.sort_by r) (column o.sort_by s)
    else leb (column o.sort_by s) (column o.sort_by r)

abbrev from_start : Option ℕ → ℕ → Bool
from_start none t = true
from_start (some a) t = leb a t

abbrev until_end : Option ℕ → ℕ → Bool
until_end none t = true
until_end (some b) t = leb t b

abbrev pub has_status : List EntryStatus → Row → Bool
has_status [] r = false
has_status (s ∷ ss) r = status_eq r.status s || has_status ss r

abbrev no_statuses : List EntryStatus → Bool
no_statuses [] = true
no_statuses (s ∷ ss) = false

-- The WHERE clause.
abbrev pub selected : QueryOptions → Row → Bool
selected o r =
    (from_start o.t_start (column o.time_field r) && until_end o.t_end (column o.time_field r))
    && (no_statuses o.statuses || has_status o.statuses r)

abbrev limited : ℤ → List Row → List Row
limited (pos zero) rows = rows
limited (pos (suc n)) rows = take (suc n) rows
limited (negsuc n) rows = rows

abbrev skipped : ℤ → List Row → List Row
skipped (pos n) rows = drop n rows
skipped (negsuc n) rows = rows

unfoldable pub select_rows : QueryOptions → List Row → List Row
unfolding order_by
select_rows o rows =
    limited o.limit (skipped o.offset (order_by (ordering o) (filter (selected o) rows)))

unfoldable pub get_entries : Env → Text → QueryOptions → Store → Result (List Row)
get_entries env db_id opts s = do
  require (env.is_valid_ulid db_id) Error.validation
  o ← validate opts
  call env.query_fails
  ok (select_rows o s.rows)

-- What holds of every row of the table holds of the rows that a query selects.
module _ {κ} (P : Row → Type κ) where
  insert_by-All :
      (before : Row → Row → Bool) (n : Row) (rs : List Row)
      → P n
      → All P rs
      → All P (insert_by before n rs)
  unfolding insert_by
  insert_by-All before n [] p h = (p, tt)
  insert_by-All before n (r ∷ rs) p h = ground (arith, h, p, insert_by-All before n rs p h.1)

  order_by-All : (before : Row → Row → Bool) (rs : List Row) → All P rs → All P (order_by before rs)
  unfolding order_by
  order_by-All before [] h = tt
  order_by-All before (r ∷ rs) h = insert_by-All before r _ h.0 (order_by-All before rs h.1)

  limited-All : (n : ℤ) (rs : List Row) → All P rs → All P (limited n rs)
  limited-All (pos zero) rs h = h
  limited-All (pos (suc n)) rs h = All-take P (suc n) rs h
  limited-All (negsuc n) rs h = h

  skipped-All : (n : ℤ) (rs : List Row) → All P rs → All P (skipped n rs)
  skipped-All (pos n) rs h = All-drop P n rs h
  skipped-All (negsuc n) rs h = h

  pub select_rows-All : (o : QueryOptions) (rs : List Row) → All P rs → All P (select_rows o rs)
  unfolding select_rows
  select_rows-All o rs h =
      limited-All o.limit _
        (skipped-All o.offset _ (order_by-All (ordering o) _ (All-filter P (selected o) rs h)))

  pub get_entries-All :
      (env : Env) (db_id : Text) (o : QueryOptions) (s : Store)
      → All P s.rows
      → Answers (All P) (get_entries env db_id o s)
  unfolding get_entries
  get_entries-All env db_id o s h =
      Answers-bind (require (env.is_valid_ulid db_id) Error.validation) _ λ _.
        Answers-bind (validate o) _
          λ q. Answers-bind (call env.query_fails) _ λ _. answer (select_rows-All q s.rows h)
