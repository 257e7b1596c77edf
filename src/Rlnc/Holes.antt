-- ===== src/Rlnc/Holes.antt =====
-- `decode_layer_with_holes` of crates/holofs-core/src/rlnc.rs: the chunks that the shards at hand determine.
use holofs.Prelude.{
  ℕ, zero, suc, ◌+◌, Bool, true, ◌&&◌, ◌||◌, List, [], ◌∷◌, Option, none, some, ◌==◌, if◌then◌else◌,
  length, get_or, set, drop, replicate,
}
use holofs.Shard.{Shard}
use holofs.Gf.{Gf}
use holofs.Rlnc.Encode.{default_k}
use holofs.Rlnc.Gauss.{Rows, find_pivot, use_pivot}
use holofs.Rlnc.Decode.{Known, sort_layer, unknown_from, build_rows}

-- The loop over the columns from `col` on, `n` of them, which skips a column without a pivot: the pivot row
-- of each column, and the rows.
unfoldable pub eliminate_with_holes : Gf → ℕ → ℕ → ℕ → Rows → List (Option ℕ) × Rows
eliminate_with_holes gf col pr zero rows = ([], rows)
eliminate_with_holes gf col pr (suc n) rows = elim (find_pivot col pr (drop pr rows)) [
  | none ↦ let (pivots, out) = eliminate_with_holes gf (col + 1) pr n rows in (none ∷ pivots, out)
  | some sel ↦
      let (pivots, out) =
        eliminate_with_holes gf (col + 1) (pr + 1) n (use_pivot gf pr col sel rows) in
      (some pr ∷ pivots, out)
]

-- The row has no other entry than that of `col` in the columns from `c` on, `n` of them.
unfoldable pub clean_from : ℕ → ℕ → ℕ → List ℕ → Bool
clean_from c col zero row = true
clean_from c col (suc n) row = (c == col || get_or row c 0 == 0) && clean_from (c + 1) col n row

-- The loop over the unknown positions and the pivots of their columns, from column `col` on.
unfoldable pub fill_holes : ℕ → Rows → ℕ → List ℕ → List (Option ℕ) → Known → Known
fill_holes n_unknown rows col [] pivots result = result
fill_holes n_unknown rows col (pos ∷ unknown) [] result = result
fill_holes n_unknown rows col (pos ∷ unknown) (none ∷ pivots) result =
    fill_holes n_unknown rows (col + 1) unknown pivots result
fill_holes n_unknown rows col (pos ∷ unknown) (some row_idx ∷ pivots) result =
    let row = get_or rows row_idx [] in
    fill_holes n_unknown rows (col + 1) unknown pivots (
      if clean_from 0 col n_unknown row then set result pos (some (drop n_unknown row)) else result)

-- `none` is a read out of range.
unfoldable pub decode_layer_with_holes : Gf → List Shard → ℕ → Option Known
decode_layer_with_holes gf shards symbol_len = elim (sort_layer (replicate default_k none) shards) [
  | none ↦ none
  | some parts ↦
      let unknown = unknown_from 0 parts.known in
      let n_unknown = length unknown in
      if n_unknown == 0 || length parts.rlnc == 0
      then some parts.known
      else (elim (build_rows gf symbol_len parts.known parts.rlnc) [
        | none ↦ none
        | some rows ↦
            let (pivots, out) = eliminate_with_holes gf 0 0 n_unknown rows in
            some (fill_holes n_unknown out 0 unknown pivots parts.known)
      ])
]
