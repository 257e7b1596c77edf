-- ===== src/Range/Bounds.antt =====
-- crates/holofs-web/src/range.rs: a range that is served lies within the body.
use holofs.Prelude.{ℕ, ◌≤◌, ◌<◌, ◌≡◌, List, [], ◌∷◌, arith, subst}
use holofs.Range.{
  ByteRange, len, RangeOutcome, no_range, range, multiple, unsatisfiable, malformed, suffix_range,
  bounded_range, parse_one, parse_pieces, parse_range,
}

-- What a served range owes the body.
abbrev pub Fits : ℕ → ByteRange → Type 0
Fits total r = (r.start ≤ r.end_inclusive) × (r.end_inclusive < total)

abbrev pub FitsOutcome : ℕ → RangeOutcome → Type 0
FitsOutcome total (range r) = Fits total r
FitsOutcome total no_range = Unit
FitsOutcome total multiple = Unit
FitsOutcome total unsatisfiable = Unit
FitsOutcome total malformed = Unit

suffix_range-fits : (b : List ℕ) (total : ℕ) → FitsOutcome total (suffix_range b total)
unfolding suffix_range
suffix_range-fits b total = ground arith

bounded_range-fits :
    (start : ℕ) (b : List ℕ) (total : ℕ) → FitsOutcome total (bounded_range start b total)
unfolding bounded_range
bounded_range-fits start b total = ground arith

parse_one-fits : (spec : List ℕ) (total : ℕ) → FitsOutcome total (parse_one spec total)
unfolding parse_one
parse_one-fits spec total = grind (arith, suffix_range-fits, bounded_range-fits)

parse_pieces-fits :
    (pieces : List (List ℕ)) (total : ℕ) → FitsOutcome total (parse_pieces pieces total)
unfolding parse_pieces
parse_pieces-fits [] total = tt
parse_pieces-fits (first ∷ []) total = parse_one-fits first total
parse_pieces-fits (first ∷ second ∷ rest) total = tt

fits_outcome : (header : List ℕ) (total : ℕ) → FitsOutcome total (parse_range header total)
unfolding parse_range
fits_outcome header total = grind (arith, parse_pieces-fits)

-- A range that the header parser hands out lies within the body: whatever the header, when the outcome
-- for a body of `total` bytes is a range, its first byte is not after its last, its last byte is inside
-- the body, and so it asks for at least one byte and at most `total`.
pub parse_range-bounds :
    (header : List ℕ) (total : ℕ) (r : ByteRange)
    → parse_range header total ≡ range r
    → (r.start ≤ r.end_inclusive) × (r.end_inclusive < total) × (0 < len r) × (len r ≤ total)
unfolding len
parse_range-bounds header total r e =
    let (a, b) = subst (FitsOutcome total) e (fits_outcome header total) in
    (a, b, omega arith, omega arith)
