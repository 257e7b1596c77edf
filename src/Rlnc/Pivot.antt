-- ===== src/Rlnc/Pivot.antt =====
-- One column of the elimination of crates/holofs-core/src/rlnc.rs: the pivot that is found, and the rows
-- after it was used.
use holofs.Prelude.{
  ℕ, zero, suc, ◌+◌, ◌-◌, ◌≤◌, ◌<◌, ◌≡◌, ◌≢◌, inl, inr, refl, ap, ◌∙◌, List, [], ◌∷◌, some,
  some_cancel, All, length, get_or, set, drop, arith, ◌==◌, ==_iff, if◌then◌else◌, Bool-cases,
}
use holofs.Gf.{new}
use holofs.Rlnc.Gauss.{Rows, entry, find_pivot, subtract_row, clear_column}

pub find_pivot-at :
    (col r s : ℕ) (rows : Rows)
    → find_pivot col r rows ≡ some s
    → (r ≤ s) × (s - r < length rows) × (entry rows (s - r) col ≢ 0)
unfolding find_pivot
find_pivot-at col r s [] h = cc
find_pivot-at col r s (row ∷ rows) h = elim (Bool-cases (get_or row col 0 == 0)) [
  | inl t ↦
      let (le, lt, ne) = find_pivot-at col (r + 1) s rows (rw t at h) in
      let next : s - r ≡ suc (s - (r + 1)) = omega arith in rw next (omega arith, omega arith, ne)
  | inr f ↦
      let same : r ≡ s = some_cancel (rw f at h) in
      let here : s - r ≡ 0 = omega arith in
      rw here (omega arith, omega arith, λ e. let t = (==_iff (get_or row col 0) 0).1 e in cc)
]

module _ {A : Type 0} where
  pub get_or-set :
      (xs : List A) (i j : ℕ) (v d : A)
      → i < length xs
      → get_or (set xs i v) j d ≡ (if j == i then v else get_or xs j d)
  get_or-set [] i j v d h = absurd (omega arith)
  get_or-set (x ∷ xs) zero zero v d h = refl
  get_or-set (x ∷ xs) zero (suc j) v d h = ground arith
  get_or-set (x ∷ xs) (suc i) zero v d h = ground arith
  get_or-set (x ∷ xs) (suc i) (suc j) v d h = get_or-set xs i j v d (omega arith) ∙ ground arith

  pub get_or-drop : (n i : ℕ) (xs : List A) (d : A) → get_or (drop n xs) i d ≡ get_or xs (n + i) d
  get_or-drop zero i xs d = ap (λ k. get_or xs k d) (omega arith)
  get_or-drop (suc n) i [] d = refl
  get_or-drop (suc n) i (x ∷ xs) d =
      let at : suc (n + i) ≡ suc n + i = omega arith in
      get_or-drop n i xs d ∙ ap (λ k. get_or (x ∷ xs) k d) at

  pub All-set : (P : A → Type 0) (xs : List A) (i : ℕ) (v : A) → All P xs → P v → All P (set xs i v)
  All-set P [] i v h p = tt
  All-set P (x ∷ xs) zero v h p = (p, h.1)
  All-set P (x ∷ xs) (suc i) v h p = (h.0, All-set P xs i v h.1 p)

  pub All-get_or :
      (P : A → Type 0) (xs : List A) (i : ℕ) (d : A) → All P xs → i < length xs → P (get_or xs i d)
  All-get_or P [] i d h b = absurd (omega arith)
  All-get_or P (x ∷ xs) zero d h b = h.0
  All-get_or P (x ∷ xs) (suc i) d h b = All-get_or P xs i d h.1 (omega arith)

-- The row `row` at index `r` after the column was cleared.
abbrev pub clear_row : ℕ → ℕ → List ℕ → ℕ → List ℕ → List ℕ
clear_row pr col pivot r row =
    if r == pr
    then row
    else if get_or row col 0 == 0
    then row
    else subtract_row new (get_or row col 0) row pivot

pub get_or-clear_column :
    (pr col r i : ℕ) (pivot : List ℕ) (rows : Rows)
    → i < length rows
    → get_or (clear_column new pr col pivot r rows) i []
      ≡ clear_row pr col pivot (r + i) (get_or rows i [])
unfolding clear_column
get_or-clear_column pr col r i pivot [] h = absurd (omega arith)
get_or-clear_column pr col r zero pivot (row ∷ rows) h =
    ap (λ k. clear_row pr col pivot k row) (omega arith)
get_or-clear_column pr col r (suc i) pivot (row ∷ rows) h =
    get_or-clear_column pr col (r + 1) i pivot rows (omega arith)
    ∙ ap (λ k. clear_row pr col pivot k (get_or rows i [])) (omega arith)

pub length-clear_column :
    (pr col r : ℕ) (pivot : List ℕ) (rows : Rows)
    → length (clear_column new pr col pivot r rows) ≡ length rows
unfolding clear_column
length-clear_column pr col r pivot [] = refl
length-clear_column pr col r pivot (row ∷ rows) =
    ap suc (length-clear_column pr col (r + 1) pivot rows)
