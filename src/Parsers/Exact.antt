-- ===== src/Parsers/Exact.antt =====
-- Numbers with a unit are read exactly, or refused where the result does not fit.
use media_hub_oss.Prelude.{
  ℕ, ◌*◌, ◌≡◌, refl, arith, true, false, ◌==◌, ltb, if◌then◌else◌, ◌++◌, Option, none, some, [],
  ◌∷◌, map, Result, ok, err, Error, Bool-cases, inl, inr, ap,
}
use media_hub_oss.Prelude.Text.{Text, codes, text_eq, one_of, is_empty, trim_space, text_eq→≡}
use media_hub_oss.Prelude.Decimal.{decimal, spelled-decimal, all_digits-decimal, decimal-ne-nil}
use media_hub_oss.Parsers.{
  max_uint64, max_int64, is_blank, is_letter, all_of, match_size, match_duration, upper_letter,
  lower_letter, scale_size, size_of_unit, parse_size, scale_duration, duration_of_unit,
  parse_duration,
}
use media_hub_oss.Parsers.Matching.{match_size_complete}

-- The product, where it is at most `limit`.
abbrev pub within : ℕ → ℕ → Option ℕ → Result ℕ
within limit n none = err Error.failure
within limit n (some factor) = if ltb limit (n * factor) then err Error.failure else ok (n * factor)

-- The bytes of a unit in capitals, and the nanoseconds of one in small letters.
abbrev pub bytes_of : Text → Option ℕ
bytes_of u =
    if one_of u (codes "T" ∷ codes "TB" ∷ [])
    then some (1_024 * 1_024 * 1_024 * 1_024)
    else if one_of u (codes "G" ∷ codes "GB" ∷ [])
    then some (1_024 * 1_024 * 1_024)
    else if one_of u (codes "M" ∷ codes "MB" ∷ [])
    then some (1_024 * 1_024)
    else if one_of u (codes "K" ∷ codes "KB" ∷ [])
    then some 1_024
    else if one_of u ([] ∷ codes "B" ∷ codes "BYTE" ∷ codes "BYTES" ∷ [])
    then some 1
    else none

abbrev pub nanoseconds_of : Text → Option ℕ
nanoseconds_of u =
    if one_of u (codes "d" ∷ codes "day" ∷ codes "days" ∷ [])
    then some (24 * 3_600 * 1_000_000_000)
    else if one_of u (codes "h" ∷ codes "hr" ∷ codes "hrs" ∷ codes "hour" ∷ codes "hours" ∷ [])
    then some (3_600 * 1_000_000_000)
    else if one_of u
        (codes "m" ∷ codes "min" ∷ codes "mins" ∷ codes "minute" ∷ codes "minutes" ∷ [])
    then some (60 * 1_000_000_000)
    else if one_of u
        (codes "s" ∷ codes "sec" ∷ codes "secs" ∷ codes "second" ∷ codes "seconds" ∷ [])
    then some 1_000_000_000
    else none

size_of_unit-within :
    (n : ℕ) (u : Text)
    → (if ltb max_uint64 n then err Error.failure else size_of_unit n u)
      ≡ within max_uint64 n (bytes_of u)
unfolding size_of_unit scale_size
size_of_unit-within n u = ground arith

duration_of_unit-within :
    (n : ℕ) (u : Text)
    → (if ltb max_int64 n then err Error.failure else duration_of_unit n u)
      ≡ within max_int64 n (nanoseconds_of u)
unfolding duration_of_unit scale_duration
duration_of_unit-within n u = ground arith

-- ParseSize reads a decimal number, blanks and a unit in any case, with white space around, as
-- exactly the number times the unit's bytes; it refuses an unknown unit and a product above the
-- largest uint64, and never wraps around.
pub parse_size_exact :
    (s : Text) (n : ℕ) (blanks unit : Text)
    → trim_space s ≡ decimal n ++ (blanks ++ unit)
    → all_of is_blank blanks ≡ true
    → all_of is_letter unit ≡ true
    → parse_size s ≡ within max_uint64 n (bytes_of (map upper_letter unit))
unfolding parse_size
parse_size_exact s n blanks unit h b k =
    rw (parse_size, h)
      (rw
        (match_size_complete (decimal n) blanks unit (decimal-ne-nil n) (all_digits-decimal n) b k)
        (rw (spelled-decimal n) (size_of_unit-within n (map upper_letter unit))))

match_duration_complete :
    (n : ℕ) (blanks unit : Text)
    → all_of is_blank blanks ≡ true
    → all_of is_letter unit ≡ true
    → is_empty unit ≡ false
    → match_duration (decimal n ++ (blanks ++ unit)) ≡ some (decimal n, unit)
unfolding match_duration
match_duration_complete n blanks unit b k e =
    rw
      (
        match_duration,
        match_size_complete (decimal n) blanks unit (decimal-ne-nil n) (all_digits-decimal n) b k,
      )
      (rw e refl)

with_unit-ne-zero :
    (n : ℕ) (blanks unit : Text)
    → all_of is_blank blanks ≡ true
    → all_of is_letter unit ≡ true
    → is_empty unit ≡ false
    → text_eq (decimal n ++ (blanks ++ unit)) (codes "0") ≡ false
unfolding match_size
with_unit-ne-zero n blanks unit b k e =
    elim (Bool-cases (text_eq (decimal n ++ (blanks ++ unit)) (codes "0"))) [
      | inr h ↦ h
      | inl h ↦ cc (
        ap match_size (text_eq→≡ (decimal n ++ (blanks ++ unit)) (codes "0") h),
        match_size_complete (decimal n) blanks unit (decimal-ne-nil n) (all_digits-decimal n) b k,
        zero_alone,
        e,
      )
    ]
  where
    zero_alone : match_size (codes "0") ≡ some (codes "0", [])
    zero_alone = refl

-- ParseDuration reads a decimal number, blanks and a unit in any case, with white space around, as
-- exactly the number times the unit's nanoseconds; it refuses an unknown unit and a product above
-- the largest int64, except for the number zero, which is zero with any unit.
pub parse_duration_exact :
    (s : Text) (n : ℕ) (blanks unit : Text)
    → trim_space s ≡ decimal n ++ (blanks ++ unit)
    → all_of is_blank blanks ≡ true
    → all_of is_letter unit ≡ true
    → is_empty unit ≡ false
    → parse_duration s
      ≡ (if n == 0 then ok 0 else within max_int64 n (nanoseconds_of (map lower_letter unit)))
unfolding parse_duration
parse_duration_exact s n blanks unit h b k e =
    rw (parse_duration, h)
      (rw (with_unit-ne-zero n blanks unit b k e) (
        rw (match_duration_complete n blanks unit b k e) (
          rw (spelled-decimal n)
            (ground (arith, duration_of_unit-within n (map lower_letter unit))))))
