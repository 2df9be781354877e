-- ===== src/Parsers.antt =====
-- internal/shared/parsers.go: sizes in bytes, a uint64, and durations in nanoseconds, an int64.
-- The two regular expressions are matched from left to right: their parts have no character in
-- common. With `(?i)` the letters of `[a-z]` are the ASCII ones, the long s and the Kelvin sign.
pub mod Matching
pub mod Exact
use media_hub_oss.Prelude.{
  ℕ, ◌*◌, ◌/◌, ◌%◌, ◌^◌, ◌-◌, Bool, true, false, not, ◌&&◌, ◌||◌, ◌==◌, ltb, leb, if◌then◌else◌,
  Option, none, some, List, [], ◌∷◌, map, Result, ok, err, Error,
}
use media_hub_oss.Prelude.Text.{
  Text, codes, text_eq, one_of, is_empty, trim_space, lower_code, upper_code,
}
use media_hub_oss.Prelude.Decimal.{is_digit, spelled}

abbrev pub max_uint64 : ℕ
max_uint64 = 2 ^ 64 - 1

abbrev pub max_int64 : ℕ
max_int64 = 2 ^ 63 - 1

abbrev pub long_s : ℕ
long_s = 0x17f

abbrev pub kelvin : ℕ
kelvin = 0x212a

-- `\s` and `[a-z]`
unfoldable pub is_blank : ℕ → Bool
is_blank c = c == 32 || (leb 9 c && leb c 10) || (leb 12 c && leb c 13)

unfoldable pub is_letter : ℕ → Bool
is_letter c = (leb b'a' c && leb c b'z') || (leb b'A' c && leb c b'Z') || c == long_s || c == kelvin

abbrev pub all_of : (ℕ → Bool) → Text → Bool
all_of p [] = true
all_of p (c ∷ s) = p c && all_of p s

-- The longest prefix of characters that pass, and the rest.
abbrev pub span : (ℕ → Bool) → Text → Text × Text
span p [] = ([], [])
span p (c ∷ s) = let rest = span p s in if p c then (c ∷ rest.0, rest.1) else ([], c ∷ s)

abbrev pub matched : Text → Text → Option (Text × Text)
matched digits unit =
    if is_empty digits || not (all_of is_letter unit) then none else some (digits, unit)

-- `^(\d+)\s*([a-z]*)$`
unfoldable pub match_size : Text → Option (Text × Text)
unfolding is_digit is_blank is_letter
match_size s = matched (span is_digit s).0 (span is_blank (span is_digit s).1).1

-- `^(\d+)\s*([a-z]+)$`
unfoldable pub match_duration : Text → Option (Text × Text)
unfolding match_size
match_duration s = elim (match_size s) [
  | none ↦ none
  | some (digits, unit) ↦ if is_empty unit then none else some (digits, unit)
]

-- strings.ToUpper and strings.ToLower, on these letters.
unfoldable pub upper_letter : ℕ → ℕ
unfolding upper_code
upper_letter c = if c == long_s then b'S' else upper_code c

unfoldable pub lower_letter : ℕ → ℕ
unfolding lower_code
lower_letter c = if c == kelvin then b'k' else lower_code c

unfoldable pub scale_size : ℕ → ℕ → Result ℕ
scale_size value factor =
    if ltb (max_uint64 / factor) value then err Error.failure else ok (value * factor % 2 ^ 64)

unfoldable pub size_of_unit : ℕ → Text → Result ℕ
unfolding scale_size
size_of_unit value unit =
    if one_of unit (codes "T" ∷ codes "TB" ∷ [])
    then scale_size value (2 ^ 40)
    else if one_of unit (codes "G" ∷ codes "GB" ∷ [])
    then scale_size value (2 ^ 30)
    else if one_of unit (codes "M" ∷ codes "MB" ∷ [])
    then scale_size value (2 ^ 20)
    else if one_of unit (codes "K" ∷ codes "KB" ∷ [])
    then scale_size value (2 ^ 10)
    else if one_of unit ([] ∷ codes "B" ∷ codes "BYTE" ∷ codes "BYTES" ∷ [])
    then ok value
    else err Error.failure

unfoldable pub parse_size : Text → Result ℕ
unfolding match_size trim_space size_of_unit upper_letter
parse_size s = elim (match_size (trim_space s)) [
  | none ↦ err Error.failure
  | some (digits, unit) ↦
      if ltb max_uint64 (spelled 0 digits)
      then err Error.failure
      else size_of_unit (spelled 0 digits) (map upper_letter unit)
]

unfoldable pub scale_duration : ℕ → ℕ → Result ℕ
scale_duration value unit =
    if ltb (max_int64 / unit) value then err Error.failure else ok (value * unit % 2 ^ 64)

abbrev pub second : ℕ
second = 1_000_000_000

unfoldable pub duration_of_unit : ℕ → Text → Result ℕ
unfolding scale_duration
duration_of_unit value unit =
    if one_of unit (codes "d" ∷ codes "day" ∷ codes "days" ∷ [])
    then scale_duration value (86_400 * second)
    else if one_of unit (codes "h" ∷ codes "hr" ∷ codes "hrs" ∷ codes "hour" ∷ codes "hours" ∷ [])
    then scale_duration value (3_600 * second)
    else if one_of unit
        (codes "m" ∷ codes "min" ∷ codes "mins" ∷ codes "minute" ∷ codes "minutes" ∷ [])
    then scale_duration value (60 * second)
    else if one_of unit
        (codes "s" ∷ codes "sec" ∷ codes "secs" ∷ codes "second" ∷ codes "seconds" ∷ [])
    then scale_duration value second
    else err Error.failure

unfoldable pub parse_duration : Text → Result ℕ
unfolding match_duration trim_space duration_of_unit lower_letter
parse_duration s =
    let trimmed = trim_space s in
    if text_eq trimmed (codes "0") then ok 0 else elim (match_duration trimmed) [
      | none ↦ err Error.failure
      | some (digits, unit) ↦
          if ltb max_int64 (spelled 0 digits)
          then err Error.failure
          else if spelled 0 digits == 0
          then ok 0
          else duration_of_unit (spelled 0 digits) (map lower_letter unit)
    ]
