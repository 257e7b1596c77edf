-- ===== src/Text.antt =====
-- crates/holofs-codec/src/text_codec.rs: the split of a text into chunks, and the text of the chunks that were read.
pub mod Slices
pub mod RoundTrip
mod Tests
use holofs.Prelude.{
  ℕ, zero, suc, ◌+◌, ◌-◌, ◌*◌, ◌/◌, ◌%◌, ◌^◌, max, min, Bool, true, false, ◌&&◌, List, [], ◌∷◌,
  ◌++◌, ◌<>◌, map, Option, none, some, length, take, drop, get_elem?, replicate, leb, ltb,
  if◌then◌else◌, flat_map,
}
use holofs.Rlnc.Encode.{default_k}

-- A byte that does not start a character.
unfoldable pub is_continuation : ℕ → Bool
is_continuation b = leb 128 b && ltb b 192

-- The loop that moves the position `s` forward to a boundary of characters; `rest` is the text from there on.
unfoldable pub to_boundary : List ℕ → ℕ → ℕ
to_boundary [] s = s
to_boundary (b ∷ rest) s =
    let later = to_boundary rest (s + 1) in if is_continuation b then later else s

-- The end of the chunk before the `i`-th.
unfoldable pub split_point : List ℕ → ℕ → ℕ
split_point bytes i = let s = i * length bytes / default_k in to_boundary (drop s bytes) s

-- The ends of the chunks from the `i`-th split point on, `count` of them, and the end of the text.
unfoldable pub splits_from : List ℕ → ℕ → ℕ → List ℕ
splits_from bytes i zero = length bytes ∷ []
splits_from bytes i (suc count) = split_point bytes i ∷ splits_from bytes (i + 1) count

-- The slices that start at `start`; `none` is a slice whose end is before its start, or past the text.
unfoldable pub slices : List ℕ → ℕ → List ℕ → Option (List (List ℕ))
slices bytes start [] = some []
slices bytes start (end ∷ ends) =
    let rest = slices bytes end ends in
    if leb start end && leb end (length bytes)
    then (elim rest [ none ↦ none | some cs ↦ some (take (end - start) (drop start bytes) ∷ cs) ])
    else none

unfoldable pub longest : List (List ℕ) → ℕ
longest [] = 0
longest (c ∷ cs) = max (length c) (longest cs)

unfoldable pub pad : ℕ → List ℕ → List ℕ
pad sym_len c = c ++ replicate (sym_len - length c) 0

pub record TextSplit : Type 0 where
  pub padded : List ℕ
  pub sym_len : ℕ
  pub chunk_lens : List ℕ

-- `none` is a panic.
unfoldable pub split_text_into_k_chunks : List ℕ → Option TextSplit
split_text_into_k_chunks bytes = elim (slices bytes 0 (splits_from bytes 1 (default_k - 1))) [
  | none ↦ none
  | some chunks ↦
      let sym_len = max (longest chunks) 1 in
      some (record {
        padded = flat_map (pad sym_len) chunks;
        sym_len = sym_len;
        chunk_lens = map (λ c. length c % 2 ^ 32) chunks;
      })
]

-- "\n[--missing chunk #"
abbrev pub missing_marker : List ℕ
missing_marker =
    10 ∷ b'[' ∷ b'-' ∷ b'-' ∷ b'm' ∷ b'i' ∷ b's' ∷ b's' ∷ b'i' ∷ b'n' ∷ b'g' ∷ b' ' ∷ b'c' ∷ b'h'
    ∷ b'u' ∷ b'n' ∷ b'k' ∷ b' ' ∷ b'#' ∷ []

-- " not recoverable--]\n"
abbrev pub missing_marker_end : List ℕ
missing_marker_end =
    b' ' ∷ b'n' ∷ b'o' ∷ b't' ∷ b' ' ∷ b'r' ∷ b'e' ∷ b'c' ∷ b'o' ∷ b'v' ∷ b'e' ∷ b'r' ∷ b'a' ∷ b'b'
    ∷ b'l' ∷ b'e' ∷ b'-' ∷ b'-' ∷ b']' ∷ 10 ∷ []

-- `i.to_string()`; a number has fewer digits than it is large, so that `i` and one more is enough fuel.
unfoldable pub digits : ℕ → ℕ → List ℕ
digits zero i = []
digits (suc n) i =
    let front = digits n (i / 10) in
    if ltb i 10 then (b'0' + i) ∷ [] else front ++ (b'0' + i % 10) ∷ []

unfoldable pub to_string : ℕ → List ℕ
to_string i = digits (i + 1) i

unfoldable pub real_length : Option ℕ → ℕ → ℕ
real_length none len = len % 2 ^ 32
real_length (some n) len = n

-- The loop from the `i`-th chunk on: the text, and the number of holes.
unfoldable pub assemble_from : ℕ → List (Option (List ℕ)) → List ℕ → List ℕ × ℕ
assemble_from i [] chunk_lens = ([], 0)
assemble_from i (some bytes ∷ chunks) chunk_lens =
    let (out, holes) = assemble_from (i + 1) chunks chunk_lens in
    (
      take (min (real_length (get_elem? chunk_lens i) (length bytes)) (length bytes)) bytes ++ out,
      holes,
    )
assemble_from i (none ∷ chunks) chunk_lens =
    let (out, holes) = assemble_from (i + 1) chunks chunk_lens in
    (missing_marker ++ (to_string i ++ (missing_marker_end ++ out)), holes + 1)

unfoldable pub assemble_text_with_holes : List (Option (List ℕ)) → List ℕ → List ℕ × ℕ
assemble_text_with_holes chunks chunk_lens = assemble_from 0 chunks chunk_lens
