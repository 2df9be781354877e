-- ===== src/Examples/Downloads.antt =====
-- Range headers and archive names.
use media_hub_oss.Prelude.{◌≡◌, refl, All, [], ◌∷◌, ok}
use media_hub_oss.Prelude.Text.{
  codes, is_space, trim_left, trim_space, has_prefix, trim_prefix, split_from, split_on,
}
use media_hub_oss.Prelude.Answers.{Answers}
use media_hub_oss.Http.Range.{
  Within, parse_range, parse_parts, parse_part, bounds_of, clipped, parse_int, parse_digits,
  parse_range-Within,
}
use media_hub_oss.Http.ZipName.{
  IsSegment, sanitize_zip_entry_name, sanitize_zip_entry_name-IsSegment,
}

-- The last 5 bytes, and the first 3, of 10.
two_ranges_test :
    parse_range (codes "bytes=-5, 0-2") 10
    ≡ ok (record { start = 5; length = 5 } ∷ record { start = 0; length = 3 } ∷ [])
unfolding parse_range parse_parts parse_part bounds_of clipped parse_int parse_digits is_space
    trim_left trim_space has_prefix trim_prefix split_from split_on
two_ranges_test = refl

parse_range-Within_example : Answers (All (Within 10)) (parse_range (codes "bytes=-5, 0-2") 10)
parse_range-Within_example = parse_range-Within (codes "bytes=-5, 0-2") 10

sanitize_zip_entry_name-IsSegment_example :
    IsSegment (sanitize_zip_entry_name (codes "../../evil.sh"))
sanitize_zip_entry_name-IsSegment_example =
    sanitize_zip_entry_name-IsSegment (codes "../../evil.sh")
