-- ===== src/Rlnc/Reduce.antt =====
-- Using a pivot in the elimination of crates/holofs-core/src/rlnc.rs turns one more column into a unit vector.
use holofs.Prelude.{
  ℕ, ◌+◌, ◌≤◌, ◌<◌, ◌≡◌, ◌≢◌, inl, inr, refl, sym, ap, ap₂, ◌∙◌, bit_xor, false, List, All, length,
  get_or, length-set, arith, ◌==◌, ==_iff, ==_refl, if◌then◌else◌, Bool-cases,
}
use holofs.Gf.{new, mul, inv}
use holofs.Gf.Xor.{xor-zero, xor_self}
use holofs.Gf.Field.{zero-mul, mul-zero, mul_comm, one-mul, mul-inv}
use holofs.Rlnc.Gauss.{Rows, entry, swap_rows, scale_row, use_pivot}
use holofs.Rlnc.Linear.{IsByte, get_or-scale_row, get_or-subtract_row, get_or-IsByte}
use holofs.Rlnc.Pivot.{clear_row, length-clear_column}
use holofs.Rlnc.Annihilate.{length-swap_rows, get_or-swap_rows}

-- The unit matrix.
abbrev pub delta : ℕ → ℕ → ℕ
delta r c = if r == c then 1 else 0

pub delta_off : (r c : ℕ) → r ≢ c → delta r c ≡ 0
delta_off r c ne = elim (Bool-cases (r == c)) [
  | inl t ↦ absurd (ne ((==_iff r c).0 t))
  | inr f ↦ rw f refl
]

pub delta_on : (r : ℕ) → delta r r ≡ 1
delta_on r = rw (==_refl r) refl

-- The first `col` columns are those of the unit matrix.
abbrev pub Reduced : ℕ → Rows → Type 0
Reduced col rows = (r c : ℕ) → r < length rows → c < col → entry rows r c ≡ delta r c

pub swap_rows-Reduced :
    (col sel : ℕ) (rows : Rows)
    → col < length rows
    → sel < length rows
    → col ≤ sel
    → Reduced col rows
    → Reduced col (swap_rows col sel rows)
swap_rows-Reduced col sel rows hp hs le red r c hr hc =
    let hr' : r < length rows = omega (arith, length-swap_rows col sel rows) in
    ap (λ t. get_or t c 0) (get_or-swap_rows col sel r rows hp hs) ∙ elim (Bool-cases (r == sel)) [
      | inl t ↦ rw t (
          red col c hp hc
          ∙ delta_off col c (λ e. omega arith)
          ∙ sym (delta_off r c (λ e. let at = (==_iff r sel).0 t in omega arith)))
      | inr f ↦ rw f (elim (Bool-cases (r == col)) [
        | inl t ↦ rw t (
            red sel c hs hc
            ∙ delta_off sel c (λ e. omega arith)
            ∙ sym (delta_off r c (λ e. let at = (==_iff r col).0 t in omega arith)))
        | inr g ↦ rw g (red r c hr' hc)
      ])
    ]

pub clear_row-entry :
    (pr r c : ℕ) (pivot row : List ℕ)
    → (r == pr) ≡ false
    → length row ≡ length pivot
    → get_or (clear_row pr pr pivot r row) c 0
      ≡ bit_xor (get_or row c 0) (mul new (get_or row pr 0) (get_or pivot c 0))
clear_row-entry pr r c pivot row ne len = rw ne (elim (Bool-cases (get_or row pr 0 == 0)) [
  | inl z ↦ rw z (
      sym (
        ap (λ f. bit_xor (get_or row c 0) (mul new f (get_or pivot c 0)))
          ((==_iff (get_or row pr 0) 0).0 z)
        ∙ ap (bit_xor (get_or row c 0)) (zero-mul (get_or pivot c 0))
        ∙ xor-zero (get_or row c 0)))
  | inr y ↦ rw y (get_or-subtract_row (get_or row pr 0) row pivot c len)
])

-- The entries of a scaled pivot row: 1 at the pivot, 0 before it.
pub pivot-entry :
    (col c : ℕ) (row : List ℕ)
    → All IsByte row
    → get_or row col 0 ≢ 0
    → c < col + 1
    → (c < col → get_or row c 0 ≡ 0)
    → get_or (scale_row new (inv new (get_or row col 0)) row) c 0 ≡ delta col c
pivot-entry col c row bytes ne hc before =
    let i = inv new (get_or row col 0) in
    get_or-scale_row i row c ∙ elim (Bool-cases (col == c)) [
      | inl t ↦ rw t (
          ap (λ k. mul new (get_or row k 0) i) (sym ((==_iff col c).0 t))
          ∙ (mul-inv (get_or row col 0) (get_or-IsByte row col bytes) ne).0)
      | inr f ↦
          let apart : col ≢ c = λ e. let t = (==_iff col c).1 e in cc in
          rw f (ap (λ x. mul new x i) (before (omega arith)) ∙ zero-mul i)
    ]

-- What clearing leaves in the columns up to the pivot's.
pub cleared-entry :
    (x f r col c : ℕ) (p : ℕ)
    → IsByte f
    → r ≢ col
    → c < col + 1
    → p ≡ delta col c
    → (c < col → x ≡ delta r c)
    → ((col ≡ c) → x ≡ f)
    → bit_xor x (mul new f p) ≡ delta r c
cleared-entry x f r col c p hf apart hc pe before here = elim (Bool-cases (col == c)) [
  | inl t ↦
      let same = (==_iff col c).0 t in
      ap₂ (λ a b. bit_xor a (mul new f b)) (here same) (pe ∙ rw t refl)
      ∙ ap (bit_xor f) (mul_comm f 1 ∙ one-mul f hf)
      ∙ xor_self f
      ∙ sym (delta_off r c (λ e. apart (e ∙ sym same)))
  | inr g ↦
      let ne : col ≢ c = λ e. let t = (==_iff col c).1 e in cc in
      ap₂ (λ a b. bit_xor a (mul new f b)) (before (omega arith)) (pe ∙ rw g refl)
      ∙ ap (bit_xor (delta r c)) (mul-zero f)
      ∙ xor-zero (delta r c)
]

pub length-use_pivot :
    (pr col sel : ℕ) (rows : Rows) → length (use_pivot new pr col sel rows) ≡ length rows
unfolding use_pivot
length-use_pivot pr col sel rows =
    length-clear_column pr col 0 _ _
    ∙ length-set (swap_rows pr sel rows) pr _
    ∙ length-swap_rows pr sel rows
