-- ===== src/Examples/Texts.antt =====
-- Sizes, durations and user names.
use media_hub_oss.Prelude.{
  ◌≡◌, refl, arith, List, [], ◌∷◌, ◌==◌, if◌then◌else◌, ok, map, ◌++◌, true,
}
use media_hub_oss.Prelude.Text.{Text, codes, trim_space}
use media_hub_oss.Prelude.Decimal.{decimal}
use media_hub_oss.Parsers.{
  max_uint64, max_int64, is_blank, is_letter, upper_letter, lower_letter, parse_size,
  parse_duration, all_of,
}
use media_hub_oss.Parsers.Exact.{
  within, bytes_of, nanoseconds_of, parse_size_exact, parse_duration_exact,
}
use media_hub_oss.Usernames.{resolve_unique_username}
use media_hub_oss.Usernames.Free.{IsResolved, resolve_unique_username-IsResolved}

ten_megabytes : trim_space (codes " 10 mb ") ≡ decimal 10 ++ (codes " " ++ codes "mb")
unfolding trim_space decimal
ten_megabytes = refl

blank : all_of is_blank (codes " ") ≡ true
unfolding is_blank
blank = refl

letters : all_of is_letter (codes "mb") ≡ true
unfolding is_letter
letters = refl

parse_size_exact_example :
    parse_size (codes " 10 mb ") ≡ within max_uint64 10 (bytes_of (map upper_letter (codes "mb")))
parse_size_exact_example =
    parse_size_exact (codes " 10 mb ") 10 (codes " ") (codes "mb") ten_megabytes blank letters

two_days : trim_space (codes "2 Days") ≡ decimal 2 ++ (codes " " ++ codes "Days")
unfolding trim_space decimal
two_days = refl

day_letters : all_of is_letter (codes "Days") ≡ true
unfolding is_letter
day_letters = refl

parse_duration_exact_example : parse_duration (codes "2 Days") ≡ (
    if 2 == 0 then ok 0 else within max_int64 2 (nanoseconds_of (map lower_letter (codes "Days"))))
parse_duration_exact_example =
    parse_duration_exact (codes "2 Days") 2 (codes " ") (codes "Days") two_days blank day_letters
      refl

abbrev taken : List Text
taken = codes "ann" ∷ codes "ann_2" ∷ []

resolve_unique_username-IsResolved_example :
    IsResolved (codes "ann") taken (resolve_unique_username 3 (codes "ann") taken)
resolve_unique_username-IsResolved_example =
    resolve_unique_username-IsResolved (codes "ann") taken 3 (omega arith)
