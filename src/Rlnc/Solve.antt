-- ===== src/Rlnc/Solve.antt =====
-- The elimination of crates/holofs-core/src/rlnc.rs as a whole: what it leaves solves the linear system.
use holofs.Prelude.{
  ℕ, zero, suc, ◌+◌, ◌-◌, ◌≤◌, ◌<◌, ◌≡◌, ◌≢◌, inl, inr, refl, sym, ap, ◌∙◌, subst, List, [], some,
  some_cancel, All, length, get_or, set, drop, length-drop, length-set, arith, ◌==◌, ==_iff,
  Bool-cases, Option-cases,
}
use holofs.Gf.{new, inv}
use holofs.Rlnc.Gauss.{Rows, entry, find_pivot, swap_rows, scale_row, use_pivot, eliminate}
use holofs.Rlnc.Linear.{IsByte, IsRow, scale_row-IsRow, get_or-IsByte}
use holofs.Rlnc.Pivot.{
  find_pivot-at, get_or-set, get_or-drop, All-get_or, clear_row, get_or-clear_column,
}
use holofs.Rlnc.Annihilate.{
  Solves, length-swap_rows, swap_rows-All, rows-IsRow, pivot_inverse, use_pivot-Solves,
}
use holofs.Rlnc.Reduce.{
  delta, delta_off, Reduced, swap_rows-Reduced, clear_row-entry, pivot-entry, cleared-entry,
  length-use_pivot,
}

module _ (l col sel : ℕ) (rows : Rows) (hp : col < length rows) (hs : sel < length rows)
    (le : col ≤ sel) (ne : entry rows sel col ≢ 0) (isrow : All (IsRow l) rows)
    (red : Reduced col rows) where
  abbrev swapped : Rows
  swapped = swap_rows col sel rows

  abbrev pivot : List ℕ
  pivot = scale_row new (inv new (entry swapped col col)) (get_or swapped col [])

  swapped-Reduced : Reduced col swapped
  swapped-Reduced = swap_rows-Reduced col sel rows hp hs le red

  pivot-delta : All (IsRow l) swapped → (c : ℕ) → c < col + 1 → get_or pivot c 0 ≡ delta col c
  pivot-delta rowed c hc =
      pivot-entry col c (get_or swapped col [])
        (All-get_or (IsRow l) swapped col [] rowed (omega (arith, length-swap_rows col sel rows))).1
        (pivot_inverse l col sel rows hp hs ne isrow).0 hc
        (λ lt.
          swapped-Reduced col c (omega (arith, length-swap_rows col sel rows)) lt
          ∙ delta_off col c (λ e. omega arith))

  cleared :
      All (IsRow l) swapped
      → All IsByte pivot
      → length pivot ≡ l
      → (r c : ℕ) → r < length rows
      → c < col + 1
      → get_or (clear_row col col pivot r (get_or (set swapped col pivot) r [])) c 0 ≡ delta r c
  cleared rowed pb pl r c hr hc =
      let hr' : r < length swapped = omega (arith, length-swap_rows col sel rows) in
      let at = get_or-set swapped col r pivot [] (omega (arith, length-swap_rows col sel rows)) in
      let row = All-get_or (IsRow l) swapped r [] rowed hr' in
      elim (Bool-cases (r == col)) [
        | inl t ↦
            let is_pivot : get_or (set swapped col pivot) r [] ≡ pivot = at ∙ rw t refl in
            ap (λ k. get_or (clear_row col col pivot r k) c 0) is_pivot
            ∙ rw t (pivot-delta rowed c hc ∙ ap (λ k. delta k c) (sym ((==_iff r col).0 t)))
        | inr f ↦
            let apart : r ≢ col = λ e. let t = (==_iff r col).1 e in cc in
            let is_row : get_or (set swapped col pivot) r [] ≡ get_or swapped r [] =
              at ∙ rw f refl in
            ap (λ k. get_or (clear_row col col pivot r k) c 0) is_row
            ∙ clear_row-entry col r c pivot (get_or swapped r []) f (omega (arith, row.0, pl))
            ∙ cleared-entry (entry swapped r c) (entry swapped r col) r col c (get_or pivot c 0)
                (get_or-IsByte (get_or swapped r []) col row.1) apart hc (pivot-delta rowed c hc)
                (λ lt. swapped-Reduced r c hr' lt) (λ e. ap (entry swapped r) (sym e))
      ]

  use_pivot-Reduced : Reduced (col + 1) (use_pivot new col col sel rows)
  unfolding use_pivot
  use_pivot-Reduced r c hr hc =
      let rowed = swap_rows-All (IsRow l) col sel rows hp hs isrow in
      let hr' : r < length rows = omega (arith, length-use_pivot col col sel rows) in
      let k : r < length (set swapped col pivot) =
        omega (arith, length-set swapped col pivot, length-swap_rows col sel rows) in
      let zero_add : 0 + r ≡ r = omega arith in
      let row =
        All-get_or (IsRow l) swapped col [] rowed (omega (arith, length-swap_rows col sel rows)) in
      ap (λ t. get_or t c 0) (get_or-clear_column col col 0 r pivot (set swapped col pivot) k)
      ∙ ap (λ t. get_or (clear_row col col pivot t (get_or (set swapped col pivot) r [])) c 0)
          zero_add
      ∙ (let p =
            scale_row-IsRow (inv new (entry swapped col col)) l (get_or swapped col [])
              (pivot_inverse l col sel rows hp hs ne isrow).1 row in
          cleared rowed p.1 p.0 r c hr' hc)

-- What holds of the rows before column `col`.
abbrev pub Stage : ℕ → List ℕ → ℕ → Rows → Type 0
Stage l ws col rows = All (Solves l ws) rows × Reduced col rows × (col ≤ length rows)

pub eliminate-Stage :
    (l : ℕ) (ws : List ℕ)
    → All IsByte ws
    → (n col : ℕ) (rows out : Rows) → Stage l ws col rows
    → eliminate new col n rows ≡ some out
    → Stage l ws (col + n) out
unfolding eliminate
eliminate-Stage l ws hw zero col rows out st e =
    let z : col ≡ col + 0 = omega arith in
    subst (λ k. Stage l ws k out) z (subst (Stage l ws col) (some_cancel e) st)
eliminate-Stage l ws hw (suc n) col rows out st e =
    elim (Option-cases (find_pivot col col (drop col rows))) [
      | inl missing ↦ let bad = rw missing at e in cc
      | inr (sel, found) ↦
          let (le, lt, ne) = find_pivot-at col col sel (drop col rows) found in
          let hs : sel < length rows = omega (arith, length-drop col rows) in
          let hp : col < length rows = omega arith in
          let at : col + (sel - col) ≡ sel = omega arith in
          let ne' : entry rows sel col ≢ 0 = λ z. ne (
            ap (λ t. get_or t col 0)
              (get_or-drop col (sel - col) rows [] ∙ ap (λ k. get_or rows k []) at)
            ∙ z) in
          let next =
            use_pivot-Reduced l col sel rows hp hs le ne' (rows-IsRow l ws rows st.0) st.1 in
          let more = use_pivot-Solves l ws hw col sel rows hp hs ne' st.0 in
          let step : col + 1 + n ≡ col + suc n = omega arith in
          subst (λ k. Stage l ws k out) step
            (eliminate-Stage l ws hw n (col + 1) (use_pivot new col col sel rows) out
              (more, next, omega (arith, length-use_pivot col col sel rows)) (rw found at e))
    ]
