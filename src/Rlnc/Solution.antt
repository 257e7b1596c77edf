-- ===== src/Rlnc/Solution.antt =====
-- The elimination of crates/holofs-core/src/rlnc.rs finds the unknown chunks.
use holofs.Prelude.{
  ℕ, zero, suc, ◌+◌, ◌≤◌, ◌<◌, ◌≡◌, refl, sym, ap, ap₂, ◌∙◌, subst, bit_xor, List, [], ◌∷◌, ◌++◌,
  some, All, All-append, length, get_or, take, drop, replicate, take-append-drop, length-take,
  arith,
}
use holofs.Gf.{new, mul}
use holofs.Gf.Xor.{zero-xor, xor-zero, xor_self, xor_assoc, xor_cancel, xor_comm}
use holofs.Gf.Field.{zero-mul, mul-zero, mul_comm, one-mul}
use holofs.Rlnc.Encode.{unit_vector}
use holofs.Rlnc.Gauss.{Rows, eliminate}
use holofs.Rlnc.Linear.{IsByte, IsRow, dot}
use holofs.Rlnc.Pivot.{All-get_or}
use holofs.Rlnc.Annihilate.{Solves}
use holofs.Rlnc.Reduce.{delta, delta_on, delta_off}
use holofs.Rlnc.Solve.{eliminate-Stage}

dot-append :
    (xs ws ys vs : List ℕ)
    → length xs ≡ length ws
    → dot (xs ++ ys) (ws ++ vs) ≡ bit_xor (dot xs ws) (dot ys vs)
unfolding dot
dot-append [] [] ys vs e = sym (zero-xor (dot ys vs))
dot-append [] (w ∷ ws) ys vs e = absurd (omega arith)
dot-append (x ∷ xs) [] ys vs e = absurd (omega arith)
dot-append (x ∷ xs) (w ∷ ws) ys vs e =
    ap (bit_xor (mul new x w)) (dot-append xs ws ys vs (omega arith))
    ∙ sym (xor_assoc (mul new x w) (dot xs ws) (dot ys vs))

dot-replicate : (ys : List ℕ) (n : ℕ) → dot ys (replicate n 0) ≡ 0
unfolding dot
dot-replicate [] n = refl
dot-replicate (y ∷ ys) zero = refl
dot-replicate (y ∷ ys) (suc n) = ap₂ bit_xor (mul-zero y) (dot-replicate ys n) ∙ zero-xor 0

pub dot-unit_vector :
    (ys : List ℕ) (n j : ℕ) → All IsByte ys → j < n → dot ys (unit_vector n j) ≡ get_or ys j 0
unfolding dot unit_vector
dot-unit_vector [] n j h b = refl
dot-unit_vector (y ∷ ys) zero j h b = absurd (omega arith)
dot-unit_vector (y ∷ ys) (suc n) zero h b =
    ap₂ bit_xor (mul_comm y 1 ∙ one-mul y h.0) (dot-replicate ys n) ∙ xor-zero y
dot-unit_vector (y ∷ ys) (suc n) (suc j) h b =
    ap₂ bit_xor (mul-zero y) (dot-unit_vector ys n j h.1 (omega arith)) ∙ zero-xor (get_or ys j 0)

get_or-end : (xs : List ℕ) → get_or xs (length xs) 0 ≡ 0
get_or-end [] = refl
get_or-end (x ∷ xs) = get_or-end xs

-- A row that starts with the unit vector of `i` picks the value of the unknown `i`.
pub dot-delta :
    (xs row ws : List ℕ) (i : ℕ)
    → All IsByte xs
    → length xs ≤ length row
    → ((c : ℕ) → c < length xs → get_or row c 0 ≡ delta i c)
    → dot row (xs ++ ws) ≡ bit_xor (get_or xs i 0) (dot (drop (length xs) row) ws)
unfolding dot
dot-delta [] row ws i h b d = sym (zero-xor (dot row ws))
dot-delta (x ∷ xs) [] ws i h b d = absurd (omega arith)
dot-delta (x ∷ xs) (r ∷ row) ws zero h b d =
    let rest = dot-delta xs row ws (length xs) h.1 (omega arith) (λ c lt.
      d (suc c) (omega arith)
      ∙ delta_off 0 (suc c) (λ e. omega arith)
      ∙ sym (delta_off (length xs) c (λ e. omega arith))) in
    ap₂ bit_xor (ap (λ k. mul new k x) (d 0 (omega arith) ∙ delta_on 0) ∙ one-mul x h.0) (
      rest
      ∙ ap (λ k. bit_xor k (dot (drop (length xs) row) ws)) (get_or-end xs)
      ∙ zero-xor (dot (drop (length xs) row) ws))
dot-delta (x ∷ xs) (r ∷ row) ws (suc i) h b d =
    ap₂ bit_xor
      (ap (λ k. mul new k x) (d 0 (omega arith) ∙ delta_off (suc i) 0 (λ e. omega arith))
        ∙ zero-mul x)
      (dot-delta xs row ws i h.1 (omega arith) (λ c lt. d (suc c) (omega arith) ∙ ground arith))
    ∙ zero-xor (bit_xor (get_or xs i 0) (dot (drop (length xs) row) ws))

xor_eq : (a b : ℕ) → bit_xor a b ≡ 0 → b ≡ a
xor_eq a b e = sym (xor_cancel b a) ∙ ap (λ t. bit_xor t a) (xor_comm b a ∙ e) ∙ zero-xor a

pub All-drop : (n : ℕ) (xs : List ℕ) → All IsByte xs → All IsByte (drop n xs)
All-drop zero xs h = h
All-drop (suc n) [] h = tt
All-drop (suc n) (x ∷ xs) h = All-drop n xs h.1

pub unit_vector-bytes : (n j : ℕ) → All IsByte (unit_vector n j)
unfolding unit_vector
unit_vector-bytes zero j = tt
unit_vector-bytes (suc n) zero = (omega arith, zeros n)
  where
    zeros : (n : ℕ) → All IsByte (replicate n 0)
    zeros zero = tt
    zeros (suc n) = (omega arith, zeros n)
unit_vector-bytes (suc n) (suc j) = (omega arith, unit_vector-bytes n j)

-- The row holds the equation of the payload column `j`: its first `n` entries times the values `xs` are its
-- entry in that column.
abbrev pub Holds : ℕ → List ℕ → ℕ → List ℕ → Type 0
Holds n xs j row = dot (take n row) xs ≡ get_or (drop n row) j 0

row-Solves :
    (n sl : ℕ) (xs : List ℕ) (j : ℕ) (row : List ℕ)
    → length xs ≡ n
    → j < sl
    → IsRow (n + sl) row
    → Holds n xs j row
    → Solves (n + sl) (xs ++ unit_vector sl j) row
row-Solves n sl xs j row len b r holds = (
  r,
  ap (λ t. dot t (xs ++ unit_vector sl j)) (sym (take-append-drop n row))
      ∙ dot-append (take n row) xs (drop n row) (unit_vector sl j)
          (omega (arith, length-take n row, r.0))
      ∙ ap₂ bit_xor holds (dot-unit_vector (drop n row) sl j (All-drop n row r.1) b)
      ∙ xor_self (get_or (drop n row) j 0),
)

rows-Solves :
    (n sl : ℕ) (xs : List ℕ) (j : ℕ) (rows : Rows)
    → length xs ≡ n
    → j < sl
    → All (IsRow (n + sl)) rows
    → All (Holds n xs j) rows
    → All (Solves (n + sl) (xs ++ unit_vector sl j)) rows
rows-Solves n sl xs j [] len b r h = tt
rows-Solves n sl xs j (row ∷ rows) len b r h =
    (row-Solves n sl xs j row len b r.0 h.0, rows-Solves n sl xs j rows len b r.1 h.1)

-- When the elimination succeeds, it has found the only solution: if the values `xs` of the `n` unknowns in
-- payload column `j` satisfy the equations of all rows, which are rows of bytes, then afterwards row `i`
-- holds the value of the unknown `i` in that column, for every `i < n`.
pub eliminate-solution :
    (n sl : ℕ) (rows out : Rows) (xs : List ℕ) (j i : ℕ)
    → length xs ≡ n
    → All IsByte xs
    → All (IsRow (n + sl)) rows
    → j < sl
    → All (Holds n xs j) rows
    → eliminate new 0 n rows ≡ some out
    → i < n
    → get_or (drop n (get_or out i [])) j 0 ≡ get_or xs i 0
eliminate-solution n sl rows out xs j i len bytes isrows b holds e lt =
    let ws = xs ++ unit_vector sl j in
    let hw = All-append IsByte xs (unit_vector sl j) bytes (unit_vector-bytes sl j) in
    let st =
      eliminate-Stage (n + sl) ws hw n 0 rows out
        (
          rows-Solves n sl xs j rows len b isrows holds,
          (λ r c hr hc. absurd (omega arith)),
          omega arith,
        )
        e in
    let row = All-get_or (Solves (n + sl) ws) out i [] st.0 (omega (arith, st.2)) in
    let zero_sum =
      dot-delta xs (get_or out i []) (unit_vector sl j) i bytes (omega (arith, row.0.0))
        (λ c hc. st.1 i c (omega (arith, st.2)) (omega arith)) in
    let bytes' = All-drop (length xs) (get_or out i []) row.0.1 in
    let payload = dot-unit_vector (drop (length xs) (get_or out i [])) sl j bytes' b in
    subst (λ k. get_or (drop k (get_or out i [])) j 0 ≡ get_or xs i 0) len
      (xor_eq (get_or xs i 0) (get_or (drop (length xs) (get_or out i [])) j 0)
        (ap (bit_xor (get_or xs i 0)) (sym payload) ∙ sym zero_sum ∙ row.1))
