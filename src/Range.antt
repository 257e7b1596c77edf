-- ===== src/Range.antt =====
-- crates/holofs-web/src/range.rs: the HTTP `Range` header. A `&str` is the list of its code points, a `u64` a
-- number below 2 ^ 64; `trim` and `parse::<u64>` are those of Rust's library.
pub mod Bounds
mod Tests
use holofs.Prelude.{
  ℕ, zero, suc, ◌+◌, ◌-◌, ◌*◌, ◌^◌, min, Bool, true, false, ◌&&◌, ◌||◌, not, List, [], ◌∷◌, Option,
  none, some, map, ltb, leb, ◌==◌, if◌then◌else◌,
}
use holofs.CatalogPath.{split}

pub record ByteRange : Type 0 where
  pub start : ℕ
  pub end_inclusive : ℕ

-- The number of bytes of a range.
unfoldable pub len : ByteRange → ℕ
len r = r.end_inclusive - r.start + 1

pub data RangeOutcome : Type 0 where
  no_range : RangeOutcome
  range : ByteRange → RangeOutcome
  multiple unsatisfiable malformed : RangeOutcome

-- Unicode's White_Space.
unfoldable pub is_whitespace : ℕ → Bool
is_whitespace c =
    (leb 9 c && leb c 13)
    || c == 32
    || c == 0x85
    || c == 0xa0
    || c == 0x1680
    || (leb 0x2000 c && leb c 0x200a)
    || c == 0x2028
    || c == 0x2029
    || c == 0x202f
    || c == 0x205f
    || c == 0x3000

unfoldable pub trim_start : List ℕ → List ℕ
trim_start [] = []
trim_start (c ∷ cs) = let rest = trim_start cs in if is_whitespace c then rest else c ∷ cs

unfoldable pub is_empty : List ℕ → Bool
is_empty [] = true
is_empty (c ∷ cs) = false

unfoldable pub trim_end : List ℕ → List ℕ
trim_end [] = []
trim_end (c ∷ cs) =
    let rest = trim_end cs in if is_empty rest && is_whitespace c then [] else c ∷ rest

unfoldable pub trim : List ℕ → List ℕ
trim cs = trim_end (trim_start cs)

unfoldable pub strip_prefix : List ℕ → List ℕ → Option (List ℕ)
strip_prefix [] cs = some cs
strip_prefix (p ∷ ps) [] = none
strip_prefix (p ∷ ps) (c ∷ cs) = let rest = strip_prefix ps cs in if p == c then rest else none

-- `split_once` at the first `sep`.
unfoldable pub split_once : ℕ → List ℕ → Option (List ℕ × List ℕ)
split_once sep [] = none
split_once sep (c ∷ cs) =
    let later = split_once sep cs in
    if c == sep then some ([], cs) else elim later [ none ↦ none | some (a, b) ↦ some (c ∷ a, b) ]

-- The digits after those already read, with the checked product and sum.
unfoldable pub parse_digits : ℕ → List ℕ → Option ℕ
parse_digits acc [] = some acc
parse_digits acc (c ∷ cs) =
    let next = acc * 10 + (c - 48) in
    let rest = parse_digits next cs in
    if leb 48 c && leb c 57 && ltb next (2 ^ 64) then rest else none

unfoldable pub parse_u64 : List ℕ → Option ℕ
parse_u64 [] = none
parse_u64 (c ∷ []) = parse_digits 0 (c ∷ [])
parse_u64 (c ∷ d ∷ cs) = if c == 43 then parse_digits 0 (d ∷ cs) else parse_digits 0 (c ∷ d ∷ cs)

-- `bytes=-N`: the last bytes.
unfoldable pub suffix_range : List ℕ → ℕ → RangeOutcome
suffix_range b total = if is_empty b then malformed else (elim (parse_u64 b) [
  | none ↦ malformed
  | some n ↦
      if n == 0 || total == 0
      then unsatisfiable
      else range record { start = total - min n total; end_inclusive = total - 1 }
])

-- `bytes=A-B` and `bytes=A-`.
unfoldable pub bounded_range : ℕ → List ℕ → ℕ → RangeOutcome
bounded_range start b total =
    if total == 0 || leb total start
    then unsatisfiable
    else if is_empty b
    then range record { start = start; end_inclusive = total - 1 }
    else (elim (parse_u64 b) [
      | none ↦ malformed
      | some raw ↦
          if ltb raw start
          then unsatisfiable
          else range record { start = start; end_inclusive = min raw (total - 1) }
    ])

unfoldable pub parse_one : List ℕ → ℕ → RangeOutcome
parse_one spec total = elim (split_once 45 spec) [
  | none ↦ malformed
  | some (a, b) ↦
      let first = trim a in
      let last = trim b in
      if is_empty first then suffix_range last total else (elim (parse_u64 first) [
        | none ↦ malformed
        | some start ↦ bounded_range start last total
      ])
]

-- The pieces that are not empty.
unfoldable pub keep_pieces : List (List ℕ) → List (List ℕ)
keep_pieces [] = []
keep_pieces (s ∷ ss) = let rest = keep_pieces ss in if is_empty s then rest else s ∷ rest

unfoldable pub parse_pieces : List (List ℕ) → ℕ → RangeOutcome
parse_pieces [] total = malformed
parse_pieces (first ∷ []) total = parse_one first total
parse_pieces (first ∷ second ∷ rest) total = multiple

-- "bytes="
abbrev pub bytes_unit : List ℕ
bytes_unit = 98 ∷ 121 ∷ 116 ∷ 101 ∷ 115 ∷ 61 ∷ []

unfoldable pub parse_range : List ℕ → ℕ → RangeOutcome
parse_range header total =
    let h = trim header in
    if is_empty h then no_range else (elim (strip_prefix bytes_unit h) [
      | none ↦ malformed
      | some spec ↦ parse_pieces (keep_pieces (map trim (split 44 spec))) total
    ])
