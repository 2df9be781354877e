-- ===== src/Http/Range.antt =====
-- parseRange of internal/httpserver/entryhandler/utils_http.go: the Range header of a download.
use media_hub_oss.Prelude.{
  ℕ, ◌+◌, ◌-◌, ◌*◌, ◌^◌, ◌<◌, ◌≤◌, ◌≡◌, arith, refl, Bool, true, false, ◌&&◌, Option, none, some,
  List, [], ◌∷◌, ltb, leb, ◌==◌, if◌then◌else◌, All, Result, ok, err, Error, ◌>>=◌, ◌>>◌, require,
  or_error,
}
use media_hub_oss.Prelude.Answers.{Answers, answer, refusal, Answers-bind}
use media_hub_oss.Prelude.Text.{
  Text, codes, is_empty, has_prefix, trim_prefix, trim_space, split_on,
}

pub record ByteRange : Type 0 where
  pub start : ℕ
  pub length : ℕ

abbrev is_digit : ℕ → Bool
is_digit c = leb b'0' c && leb c b'9'

unfoldable pub parse_digits : ℕ → Text → Option ℕ
parse_digits n [] = some n
parse_digits n (c ∷ s) =
    let rest = parse_digits (n * 10 + (c - b'0')) s in if is_digit c then rest else none

abbrev digits : Text → Option ℕ
digits [] = none
digits (c ∷ s) = parse_digits 0 (c ∷ s)

abbrev unsigned : Text → Text
unsigned [] = []
unsigned (c ∷ s) = if c == b'+' then s else c ∷ s

-- strconv.ParseInt in base 10 for 64 bits, on a text without '-'.
unfoldable pub parse_int : Text → Option ℕ
unfolding parse_digits
parse_int s = elim (digits (unsigned s)) [
  | none ↦ none
  | some n ↦ if ltb n (2 ^ 63) then some n else none
]

-- One `first-last`; an end of -1, in an empty file, has no number here, so `stop` is the code's
-- `end + 1`.
unfoldable pub bounds_of : ℕ → Text → Text → Result (ℕ × ℕ)
bounds_of file_size first last =
    if is_empty first
    then (do
      suffix ← or_error (parse_int last) Error.failure
      ok (file_size - (if ltb file_size suffix then file_size else suffix), file_size))
    else (do
      start ← or_error (parse_int first) Error.failure
      stop ←
          if is_empty last
          then ok file_size
          else (or_error (parse_int last) Error.failure >>= λ end. ok (end + 1))
      ok (start, stop))

-- The range within the file, or an error where that is empty.
unfoldable pub clipped : ℕ → ℕ × ℕ → Result ByteRange
clipped file_size (start, stop) =
    let stop' = if ltb file_size stop then file_size else stop in
    if leb stop' start
    then err Error.failure
    else ok (record { start = start; length = stop' - start })

unfoldable pub parse_part : ℕ → List Text → Result (Option ByteRange)
unfolding bounds_of clipped
parse_part file_size (first ∷ last ∷ []) =
    bounds_of file_size first last >>= λ b. clipped file_size b >>= λ r. ok (some r)
parse_part file_size _ = ok none

abbrev prepend : Option ByteRange → List ByteRange → List ByteRange
prepend none rs = rs
prepend (some r) rs = r ∷ rs

unfoldable pub parse_parts : ℕ → List Text → Result (List ByteRange)
unfolding parse_part
parse_parts file_size [] = ok []
parse_parts file_size (part ∷ parts) =
    parse_part file_size (split_on b'-' (trim_space part)) >>= λ r.
    parse_parts file_size parts >>= λ rs. ok (prepend r rs)

unfoldable pub parse_range : Text → ℕ → Result (List ByteRange)
unfolding parse_parts
parse_range header file_size =
    require (has_prefix header (codes "bytes=")) Error.failure
    >> parse_parts file_size (split_on b',' (trim_prefix header (codes "bytes=")))

-- A range of at least one byte within the file.
abbrev pub Within : ℕ → ByteRange → Type 0
Within file_size r = (0 < r.length) × (r.start + r.length ≤ file_size)

abbrev WithinOption : ℕ → Option ByteRange → Type 0
WithinOption file_size none = Unit {0}
WithinOption file_size (some r) = Within file_size r

clipped-Within : (n : ℕ) (b : ℕ × ℕ) → Answers (Within n) (clipped n b)
unfolding clipped
clipped-Within n (start, stop) = kept _ refl
  where
    stop' : ℕ
    stop' = if ltb n stop then n else stop

    kept :
        (b : Bool)
        → leb stop' start ≡ b
        → Answers
            (Within n)
            (if b then err Error.failure else ok (record { start = start; length = stop' - start }))
    kept true e = refusal
    kept false e = answer (ground (arith, e))

parse_part-Within : (n : ℕ) (p : List Text) → Answers (WithinOption n) (parse_part n p)
unfolding parse_part
parse_part-Within n [] = answer tt
parse_part-Within n (a ∷ []) = answer tt
parse_part-Within n (a ∷ b ∷ []) =
    Answers-bind (bounds_of n a b) _ λ bs. lift (clipped n bs) (clipped-Within n bs)
  where
    lift :
        (r : Result ByteRange)
        → Answers (Within n) r
        → Answers (WithinOption n) (r >>= λ x. ok (some x))
    lift r (answer w) = answer w
    lift r refusal = refusal
parse_part-Within n (a ∷ b ∷ c ∷ p) = answer tt

parse_parts-Within : (n : ℕ) (ps : List Text) → Answers (All (Within n)) (parse_parts n ps)
unfolding parse_parts
parse_parts-Within n [] = answer tt
parse_parts-Within n (p ∷ ps) =
    join (parse_part n (split_on b'-' (trim_space p)))
      (parse_part-Within n (split_on b'-' (trim_space p))) (parse_parts n ps)
      (parse_parts-Within n ps)
  where
    prepended :
        (o : Option ByteRange) (rs : List ByteRange)
        → WithinOption n o
        → All (Within n) rs
        → All (Within n) (prepend o rs)
    prepended none rs h k = k
    prepended (some r) rs h k = (h, k)

    join :
        (r : Result (Option ByteRange))
        → Answers (WithinOption n) r
        → (rest : Result (List ByteRange)) → Answers (All (Within n)) rest
        → Answers (All (Within n)) (r >>= λ o. rest >>= λ rs. ok (prepend o rs))
    join r refusal rest k = refusal
    join r (answer h) rest refusal = refusal
    join r (answer h) rest (answer k) = answer (prepended _ _ h k)

-- Whatever a Range header says, every range that parseRange returns has at least one byte and lies
-- within the file.
pub parse_range-Within :
    (header : Text) (file_size : ℕ)
    → Answers (All (Within file_size)) (parse_range header file_size)
unfolding parse_range
parse_range-Within header n =
    Answers-bind (require (has_prefix header (codes "bytes=")) Error.failure) _
      λ _. parse_parts-Within n (split_on b',' (trim_prefix header (codes "bytes=")))
