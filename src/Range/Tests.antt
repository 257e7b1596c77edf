-- ===== src/Range/Tests.antt =====
-- Runs of the header parser, and the theorem at a concrete header.
use holofs.Prelude.{ℕ, ◌≤◌, ◌<◌, ◌≡◌, refl, List, [], ◌∷◌}
use holofs.Range.{
  ByteRange, len, range, is_whitespace, trim_start, is_empty, trim_end, trim, strip_prefix,
  split_once, parse_digits, parse_u64, suffix_range, bounded_range, parse_one, keep_pieces,
  parse_pieces, parse_range,
}
use holofs.Range.Bounds.{parse_range-bounds}
use holofs.CatalogPath.{split}

abbrev of : ℕ → ℕ → ByteRange
of a b = record { start = a; end_inclusive = b }

-- "bytes=2-9"
abbrev two_to_nine : List ℕ
two_to_nine = 98 ∷ 121 ∷ 116 ∷ 101 ∷ 115 ∷ 61 ∷ 50 ∷ 45 ∷ 57 ∷ []

-- " bytes=-3"
abbrev last_three : List ℕ
last_three = 32 ∷ 98 ∷ 121 ∷ 116 ∷ 101 ∷ 115 ∷ 61 ∷ 45 ∷ 51 ∷ []

module _ where
  cut : parse_range two_to_nine 5 ≡ range (of 2 4)
  unfolding parse_range trim trim_start trim_end is_whitespace is_empty strip_prefix split
      keep_pieces parse_pieces parse_one split_once parse_u64 parse_digits bounded_range
      suffix_range
  cut = refl

  suffix : parse_range last_three 10 ≡ range (of 7 9)
  unfolding parse_range trim trim_start trim_end is_whitespace is_empty strip_prefix split
      keep_pieces parse_pieces parse_one split_once parse_u64 parse_digits bounded_range
      suffix_range
  suffix = refl

parse_range-bounds_example : (2 ≤ 4) × (4 < 5) × (0 < len (of 2 4)) × (len (of 2 4) ≤ 5)
parse_range-bounds_example = parse_range-bounds two_to_nine 5 (of 2 4) cut
