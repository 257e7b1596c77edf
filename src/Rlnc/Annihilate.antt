-- ===== src/Rlnc/Annihilate.antt =====
-- Using a pivot in the elimination of crates/holofs-core/src/rlnc.rs keeps every linear relation that holds
-- of all rows, with the rows' lengths and bytes.
use holofs.Prelude.{
  ℕ, ◌+◌, ◌<◌, ◌≡◌, ◌≢◌, inl, inr, refl, sym, ap, ap₂, ◌∙◌, bit_xor, List, [], ◌∷◌, All, length,
  get_or, set, length-set, arith, ◌==◌, ==_iff, ==_refl, if◌then◌else◌, Bool-cases,
}
use holofs.Gf.{new, mul, inv}
use holofs.Gf.Xor.{zero-xor}
use holofs.Gf.Field.{zero-mul, mul-zero, mul-inv}
use holofs.Rlnc.Gauss.{Rows, entry, swap_rows, scale_row, clear_column, use_pivot}
use holofs.Rlnc.Linear.{
  IsByte, IsRow, dot, dot-scale_row, dot-subtract_row, scale_row-IsRow, subtract_row-IsRow,
  get_or-IsByte,
}
use holofs.Rlnc.Pivot.{get_or-set, All-set, All-get_or, clear_row}

-- A row of `l` bytes on which the form with the values `ws` is zero.
abbrev pub Solves : ℕ → List ℕ → List ℕ → Type 0
Solves l ws row = IsRow l row × (dot row ws ≡ 0)

pub length-swap_rows : (a b : ℕ) (rows : Rows) → length (swap_rows a b rows) ≡ length rows
unfolding swap_rows
length-swap_rows a b rows =
    length-set (set rows a (get_or rows b [])) b (get_or rows a [])
    ∙ length-set rows a (get_or rows b [])

pub get_or-swap_rows :
    (a b i : ℕ) (rows : Rows)
    → a < length rows
    → b < length rows
    → get_or (swap_rows a b rows) i []
      ≡ (if i == b then get_or rows a [] else if i == a then get_or rows b [] else get_or rows i [])
unfolding swap_rows
get_or-swap_rows a b i rows ha hb =
    get_or-set (set rows a (get_or rows b [])) b i (get_or rows a []) []
      (omega (arith, length-set rows a (get_or rows b [])))
    ∙ ap (λ t. if i == b then get_or rows a [] else t)
        (get_or-set rows a i (get_or rows b []) [] ha)

-- The pivot row moves to the place `pr`.
pub swapped_pivot :
    (pr sel : ℕ) (rows : Rows)
    → pr < length rows
    → sel < length rows
    → get_or (swap_rows pr sel rows) pr [] ≡ get_or rows sel []
swapped_pivot pr sel rows hp hs =
    get_or-swap_rows pr sel pr rows hp hs ∙ elim (Bool-cases (pr == sel)) [
      | inl t ↦ rw t (ap (λ k. get_or rows k []) ((==_iff pr sel).0 t))
      | inr f ↦ rw f (rw (==_refl pr) refl)
    ]

pub rows-IsRow : (l : ℕ) (ws : List ℕ) (rows : Rows) → All (Solves l ws) rows → All (IsRow l) rows
rows-IsRow l ws [] h = tt
rows-IsRow l ws (row ∷ rows) h = (h.0.0, rows-IsRow l ws rows h.1)

pub swap_rows-All :
    (P : List ℕ → Type 0) (a b : ℕ) (rows : Rows)
    → a < length rows
    → b < length rows
    → All P rows
    → All P (swap_rows a b rows)
unfolding swap_rows
swap_rows-All P a b rows ha hb h =
    All-set P (set rows a (get_or rows b [])) b (get_or rows a [])
      (All-set P rows a (get_or rows b []) h (All-get_or P rows b [] h hb))
      (All-get_or P rows a [] h ha)

-- The factor that makes the pivot 1.
pub pivot_inverse :
    (l pr sel : ℕ) (rows : Rows)
    → pr < length rows
    → sel < length rows
    → entry rows sel pr ≢ 0
    → All (IsRow l) rows
    → (entry (swap_rows pr sel rows) pr pr ≢ 0)
      × IsByte (inv new (entry (swap_rows pr sel rows) pr pr))
pivot_inverse l pr sel rows hp hs ne h =
    let swapped = swap_rows pr sel rows in
    let other : entry swapped pr pr ≢ 0 =
      λ e. ne (ap (λ t. get_or t pr 0) (sym (swapped_pivot pr sel rows hp hs)) ∙ e) in
    let row =
      All-get_or (IsRow l) swapped pr [] (swap_rows-All (IsRow l) pr sel rows hp hs h)
        (omega (arith, length-swap_rows pr sel rows)) in
    (other, (mul-inv (entry swapped pr pr) (get_or-IsByte (get_or swapped pr []) pr row.1) other).1)

module _ (l : ℕ) (ws : List ℕ) (hw : All IsByte ws) where
  clear_row-Solves :
      (pr col r : ℕ) (pivot row : List ℕ)
      → Solves l ws pivot
      → Solves l ws row
      → Solves l ws (clear_row pr col pivot r row)
  clear_row-Solves pr col r pivot row hp hr =
      let f = get_or row col 0 in
      let hf = get_or-IsByte row col hr.0.1 in
      elim (Bool-cases (r == pr)) [
        | inl t ↦ rw t hr
        | inr n ↦ rw n (elim (Bool-cases (f == 0)) [
          | inl z ↦ rw z hr
          | inr y ↦ rw y (
            subtract_row-IsRow f l row pivot hf hr.0 hp.0,
            dot-subtract_row f row pivot ws (omega (arith, hr.0.0, hp.0.0)) hf hr.0.1 hp.0.1 hw
                ∙ ap₂ (λ a b. bit_xor a (mul new f b)) hr.1 hp.1
                ∙ ap (bit_xor 0) (mul-zero f)
                ∙ zero-xor 0,
          )
        ])
      ]

  clear_column-Solves :
      (pr col r : ℕ) (pivot : List ℕ) (rows : Rows)
      → Solves l ws pivot
      → All (Solves l ws) rows
      → All (Solves l ws) (clear_column new pr col pivot r rows)
  unfolding clear_column
  clear_column-Solves pr col r pivot [] hp h = tt
  clear_column-Solves pr col r pivot (row ∷ rows) hp h = (
    clear_row-Solves pr col r pivot row hp h.0,
    clear_column-Solves pr col (r + 1) pivot rows hp h.1,
  )

  scale_row-Solves :
      (c : ℕ) (row : List ℕ) → IsByte c → Solves l ws row → Solves l ws (scale_row new c row)
  scale_row-Solves c row hc h = (
    scale_row-IsRow c l row hc h.0,
    dot-scale_row c row ws hc h.0.1 hw ∙ ap (λ d. mul new d c) h.1 ∙ zero-mul c,
  )

  pub use_pivot-Solves :
      (pr sel : ℕ) (rows : Rows)
      → pr < length rows
      → sel < length rows
      → entry rows sel pr ≢ 0
      → All (Solves l ws) rows
      → All (Solves l ws) (use_pivot new pr pr sel rows)
  unfolding use_pivot
  use_pivot-Solves pr sel rows hp hs ne h =
      let swapped = swap_rows pr sel rows in
      let all = swap_rows-All (Solves l ws) pr sel rows hp hs h in
      let row =
        All-get_or (Solves l ws) swapped pr [] all (omega (arith, length-swap_rows pr sel rows)) in
      let inverse = (pivot_inverse l pr sel rows hp hs ne (rows-IsRow l ws rows h)).1 in
      let pivot =
        scale_row-Solves (inv new (entry swapped pr pr)) (get_or swapped pr []) inverse row in
      clear_column-Solves pr pr 0 _ _ pivot (All-set (Solves l ws) swapped pr _ all pivot)
