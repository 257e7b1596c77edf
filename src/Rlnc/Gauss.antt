-- ===== src/Rlnc/Gauss.antt =====
-- The Gauss-Jordan elimination of crates/holofs-core/src/rlnc.rs, on rows of `n_unknown` coefficients
-- followed by `symbol_len` payload bytes.
use holofs.Prelude.{
  ℕ, zero, suc, ◌+◌, bit_xor, List, [], ◌∷◌, Option, none, some, ◌==◌, if◌then◌else◌, get_or, set,
  map, drop,
}
use holofs.Gf.{Gf, mul, inv}

abbrev pub Rows : Type 0
Rows = List (List ℕ)

-- `rows[r][c]`
abbrev pub entry : Rows → ℕ → ℕ → ℕ
entry rows r c = get_or (get_or rows r []) c 0

-- The first row from `pr` on whose entry in `col` is not zero: the rows left are the second argument.
unfoldable pub find_pivot : ℕ → ℕ → Rows → Option ℕ
find_pivot col r [] = none
find_pivot col r (row ∷ rows) =
    let later = find_pivot col (r + 1) rows in if get_or row col 0 == 0 then later else some r

-- `rows.swap(a, b)`
unfoldable pub swap_rows : ℕ → ℕ → Rows → Rows
swap_rows a b rows = set (set rows a (get_or rows b [])) b (get_or rows a [])

unfoldable pub scale_row : Gf → ℕ → List ℕ → List ℕ
scale_row gf c row = map (λ x. mul gf x c) row

-- `rows[r][x] ^= gf.mul(f, rows[pr][x])` for every `x`.
unfoldable pub subtract_row : Gf → ℕ → List ℕ → List ℕ → List ℕ
subtract_row gf f [] pivot = []
subtract_row gf f (x ∷ xs) [] = x ∷ xs
subtract_row gf f (x ∷ xs) (p ∷ ps) = bit_xor x (mul gf f p) ∷ subtract_row gf f xs ps

-- The loop over the rows from `r` on: every row but the pivot row loses its entry in `col`.
unfoldable pub clear_column : Gf → ℕ → ℕ → List ℕ → ℕ → Rows → Rows
clear_column gf pr col pivot r [] = []
clear_column gf pr col pivot r (row ∷ rows) =
    (if r == pr
      then row
      else if get_or row col 0 == 0
      then row
      else subtract_row gf (get_or row col 0) row pivot)
    ∷ clear_column gf pr col pivot (r + 1) rows

-- What is done with the pivot found for `col` in row `sel`.
unfoldable pub use_pivot : Gf → ℕ → ℕ → ℕ → Rows → Rows
use_pivot gf pr col sel rows =
    let swapped = swap_rows pr sel rows in
    let pivot = scale_row gf (inv gf (entry swapped pr col)) (get_or swapped pr []) in
    clear_column gf pr col pivot 0 (set swapped pr pivot)

abbrev pub with_pivot : Option ℕ → (ℕ → Option Rows) → Option Rows
with_pivot none rest = none
with_pivot (some sel) rest = rest sel

-- The loop over the columns from `col` on, `n` of them; `none` if a column has no pivot. The pivot row
-- and the column run in step, since a column without a pivot ends the loop.
unfoldable pub eliminate : Gf → ℕ → ℕ → Rows → Option Rows
eliminate gf col zero rows = some rows
eliminate gf col (suc n) rows =
    with_pivot (find_pivot col col (drop col rows))
      (λ sel. eliminate gf (col + 1) n (use_pivot gf col col sel rows))
