-- ===== src/Rlnc/Reduction.antt =====
-- The reduced system of the decoders of crates/holofs-core/src/rlnc.rs: its rows hold for the unknown chunks.
use mathlib.Core.Option
use holofs.Prelude.{
  ℕ, zero, suc, ◌+◌, ◌<◌, ◌≤◌, ◌≡◌, inl, inr, refl, sym, ap, ◌∙◌, subst, bit_xor, List, [], ◌∷◌,
  ◌++◌, none, some, All, All-append, length, length-append, take, drop, take-append, drop-append,
  get_elem?, get_or, ◌==◌, ==_iff, if◌then◌else◌, Bool-cases, arith,
}
use holofs.Shard.{Shard}
use holofs.Gf.{new, mul}
use holofs.Gf.Xor.{xor-zero, xor_comm, xor_assoc, xor_cancel, xor_below}
use holofs.Gf.Field.{zero-mul, mul-byte}
use holofs.Rlnc.Encode.{chunk}
use holofs.Rlnc.Gauss.{Rows}
use holofs.Rlnc.Decode.{
  Known, unknown_from, read_all, reduce_byte, reduce_payload, build_row, build_rows,
}
use holofs.Rlnc.Linear.{IsByte, IsRow, dot, get_or-IsByte}
use holofs.Rlnc.Solution.{Holds}
use holofs.Rlnc.Encoder.{column, chunk-IsRow, Fits}
use holofs.Rlnc.Known.{dot-nil, IsTrue, IsGood}

pub get_elem-get_or_d :
    {A : Type 0} (d : A) (xs : List A) (i : ℕ)
    → i < length xs
    → get_elem? xs i ≡ some (get_or xs i d)
get_elem-get_or_d d [] i h = absurd (omega arith)
get_elem-get_or_d d (x ∷ xs) zero h = refl
get_elem-get_or_d d (x ∷ xs) (suc i) h = get_elem-get_or_d d xs i (omega arith)

get_elem-get_or : (xs : List ℕ) (i : ℕ) → i < length xs → get_elem? xs i ≡ some (get_or xs i 0)
get_elem-get_or xs i h = get_elem-get_or_d 0 xs i h

-- The values of the unknown chunks from position `i` on, in column `j`.
unfoldable pub unknown_values : List ℕ → ℕ → ℕ → ℕ → Known → List ℕ
unknown_values padded sl j i [] = []
unknown_values padded sl j i (none ∷ known) =
    get_or (chunk padded sl i) j 0 ∷ unknown_values padded sl j (i + 1) known
unknown_values padded sl j i (some c ∷ known) = unknown_values padded sl j (i + 1) known

drop_cons : (xs : List ℕ) (i : ℕ) → i < length xs → drop i xs ≡ get_or xs i 0 ∷ drop (i + 1) xs
drop_cons [] i h = absurd (omega arith)
drop_cons (x ∷ xs) zero h = refl
drop_cons (x ∷ xs) (suc i) h =
    let e : suc i + 1 ≡ suc (i + 1) = omega arith in rw e (drop_cons xs i (omega arith))

xor_left_comm : (a b c : ℕ) → bit_xor a (bit_xor b c) ≡ bit_xor b (bit_xor a c)
xor_left_comm a b c = sym (xor_assoc a b c) ∙ ap (λ t. bit_xor t c) (xor_comm a b) ∙ xor_assoc b a c

module _ (padded : List ℕ) (k sl : ℕ) (hp : All IsByte padded) (fits : Fits k sl padded)
    (coeffs : List ℕ) (hc : IsRow k coeffs) where
  -- The coefficients at the unknown positions from `i` on, and the sum over the known ones.
  unfoldable lefts : ℕ → Known → List ℕ
  lefts i [] = []
  lefts i (none ∷ known) = get_or coeffs i 0 ∷ lefts (i + 1) known
  lefts i (some c ∷ known) = lefts (i + 1) known

  unfoldable known_sum : ℕ → ℕ → Known → ℕ
  known_sum j i [] = 0
  known_sum j i (none ∷ known) = known_sum j (i + 1) known
  known_sum j i (some c ∷ known) =
      bit_xor (mul new (get_or coeffs i 0) (get_or (chunk padded sl i) j 0))
        (known_sum j (i + 1) known)

  product :
      (c : List ℕ) (i j ci : ℕ)
      → j < sl
      → i < k
      → c ≡ chunk padded sl i
      → (if ci == 0 then some 0 else Option.map (mul new ci) (get_elem? c j))
        ≡ some (mul new ci (get_or (chunk padded sl i) j 0))
  product c i j ci b lt same =
      let len = (chunk-IsRow padded sl i hp (fits i lt)).0 in
      let at = ap (λ t. get_elem? t j) same ∙ get_elem-get_or (chunk padded sl i) j (omega arith) in
      elim (Bool-cases (ci == 0)) [
        | inl t ↦ rw t (
            ap some (
              sym (zero-mul (get_or (chunk padded sl i) j 0))
              ∙ ap (λ a. mul new a (get_or (chunk padded sl i) j 0)) (sym ((==_iff ci 0).0 t))))
        | inr f ↦ rw f (ap (Option.map (mul new ci)) at)
      ]

  read_all-lefts :
      (i : ℕ) (known : Known)
      → i + length known ≤ k
      → read_all coeffs (unknown_from i known) ≡ some (lefts i known)
  unfolding read_all unknown_from lefts
  read_all-lefts i [] h = refl
  read_all-lefts i (none ∷ known) h =
      rw
        (get_elem-get_or coeffs i (omega (arith, hc.0)), read_all-lefts (i + 1) known (omega arith))
        refl
  read_all-lefts i (some c ∷ known) h = read_all-lefts (i + 1) known (omega arith)

  lefts-IsRow : (i : ℕ) (known : Known) → IsRow (length (unknown_from i known)) (lefts i known)
  unfolding unknown_from lefts
  lefts-IsRow i [] = (refl, tt)
  lefts-IsRow i (none ∷ known) =
      let (len, bytes) = lefts-IsRow (i + 1) known in
      (ap suc len, (get_or-IsByte coeffs i hc.1, bytes))
  lefts-IsRow i (some c ∷ known) = lefts-IsRow (i + 1) known

  reduce_byte-sum :
      (j i : ℕ) (known : Known) (byte : ℕ)
      → j < sl
      → i + length known ≤ k
      → IsGood padded k sl hp fits i known
      → reduce_byte new coeffs j i known byte ≡ some (bit_xor byte (known_sum j i known))
  unfolding reduce_byte known_sum
  reduce_byte-sum j i [] byte b h g = ap some (sym (xor-zero byte))
  reduce_byte-sum j i (none ∷ known) byte b h g =
      reduce_byte-sum j (i + 1) known byte b (omega arith) g
  reduce_byte-sum j i (some c ∷ known) byte b h g =
      let ci = get_or coeffs i 0 in
      let y = mul new ci (get_or (chunk padded sl i) j 0) in
      rw (get_elem-get_or coeffs i (omega (arith, hc.0))) (
        rw (product c i j ci b (omega arith) g.0) (
          reduce_byte-sum j (i + 1) known (bit_xor byte y) b (omega arith) g.1
          ∙ ap some (xor_assoc byte y (known_sum j (i + 1) known))))

  -- The products at the unknown and at the known positions are all of the products.
  split_sum :
      (j i : ℕ) (known : Known)
      → i + length known ≤ k
      → bit_xor (dot (lefts i known) (unknown_values padded sl j i known)) (known_sum j i known)
        ≡ dot (drop i coeffs) (column padded sl j i (length known))
  unfolding lefts known_sum unknown_values column dot
  split_sum j i [] h = sym (dot-nil (drop i coeffs))
  split_sum j i (none ∷ known) h =
      let t = mul new (get_or coeffs i 0) (get_or (chunk padded sl i) j 0) in
      xor_assoc t (dot (lefts (i + 1) known) (unknown_values padded sl j (i + 1) known))
        (known_sum j (i + 1) known)
      ∙ ap (bit_xor t) (split_sum j (i + 1) known (omega arith))
      ∙ ap (λ cs. dot cs (column padded sl j i (suc (length known))))
          (sym (drop_cons coeffs i (omega (arith, hc.0))))
  split_sum j i (some c ∷ known) h =
      let t = mul new (get_or coeffs i 0) (get_or (chunk padded sl i) j 0) in
      xor_left_comm (dot (lefts (i + 1) known) (unknown_values padded sl j (i + 1) known)) t
        (known_sum j (i + 1) known)
      ∙ ap (bit_xor t) (split_sum j (i + 1) known (omega arith))
      ∙ ap (λ cs. dot cs (column padded sl j i (suc (length known))))
          (sym (drop_cons coeffs i (omega (arith, hc.0))))

  known_sum-IsByte : (j i : ℕ) (known : Known) → i + length known ≤ k → IsByte (known_sum j i known)
  unfolding known_sum
  known_sum-IsByte j i [] h = omega arith
  known_sum-IsByte j i (none ∷ known) h = known_sum-IsByte j (i + 1) known (omega arith)
  known_sum-IsByte j i (some c ∷ known) h =
      let row = chunk-IsRow padded sl i hp (fits i (omega arith)) in
      xor_below 8 (mul new (get_or coeffs i 0) (get_or (chunk padded sl i) j 0))
        (known_sum j (i + 1) known)
        (mul-byte (get_or coeffs i 0) (get_or (chunk padded sl i) j 0) (get_or-IsByte coeffs i hc.1)
          (get_or-IsByte (chunk padded sl i) j row.1))
        (known_sum-IsByte j (i + 1) known (omega arith))

module _ (padded : List ℕ) (k sl : ℕ) (hp : All IsByte padded) (fits : Fits k sl padded)
    (known : Known) (good : IsGood padded k sl hp fits 0 known) (size : length known ≡ k) where
  abbrev n_unknown : ℕ
  n_unknown = length (unknown_from 0 known)

  unfoldable reduced : (s : Shard) → IsTrue padded k sl hp fits s → ℕ → ℕ
  reduced s h j =
      bit_xor (get_or s.payload j 0) (known_sum padded k sl hp fits s.coeffs h.0 j 0 known)

  reduce_payload-reduced :
      (s : Shard) (h : IsTrue padded k sl hp fits s) (j n : ℕ)
      → j + n ≤ sl
      → (right : List ℕ) × (reduce_payload new s known j n ≡ some right)
        × IsRow n right
        × ((m : ℕ) → m < n → get_or right m 0 ≡ reduced s h (j + m))
  unfolding reduce_payload reduced
  reduce_payload-reduced s h j zero b = ([], refl, (refl, tt), λ m lt. absurd (omega arith))
  reduce_payload-reduced s h j (suc n) b =
      let (right, e, row, at) = reduce_payload-reduced s h (j + 1) n (omega arith) in
      let byte = get_or s.payload j 0 in
      let first =
        reduce_byte-sum padded k sl hp fits s.coeffs h.0 j 0 known byte (omega arith) (omega arith)
          good in
      (
        reduced s h j ∷ right,
        rw (get_elem-get_or s.payload j (omega (arith, h.1.0))) (rw first (rw e refl)),
        (
          ap suc row.0,
          (
            xor_below 8 byte _ (get_or-IsByte s.payload j h.1.1)
                (known_sum-IsByte padded k sl hp fits s.coeffs h.0 j 0 known (omega arith)),
            row.1,
          ),
        ),
        λ m lt. entry s h j n right at m lt,
      )
    where
      entry :
          (s : Shard) (h : IsTrue padded k sl hp fits s) (j n : ℕ) (right : List ℕ)
          → ((m : ℕ) → m < n → get_or right m 0 ≡ reduced s h (j + 1 + m))
          → (m : ℕ) → m < suc n
          → get_or (reduced s h j ∷ right) m 0 ≡ reduced s h (j + m)
      entry s h j n right at zero lt = let z : j ≡ j + 0 = omega arith in ap (reduced s h) z
      entry s h j n right at (suc m) lt =
          let z : j + 1 + m ≡ j + suc m = omega arith in at m (omega arith) ∙ ap (reduced s h) z

  build_row-Holds :
      (s : Shard)
      → IsTrue padded k sl hp fits s
      → (row : List ℕ) × (build_row new sl known s ≡ some row)
        × IsRow (n_unknown + sl) row
        × ((j : ℕ) → j < sl → Holds n_unknown (unknown_values padded sl j 0 known) j row)
  unfolding build_row reduced
  build_row-Holds s h =
      let left = lefts padded k sl hp fits s.coeffs h.0 0 known in
      let lrow = lefts-IsRow padded k sl hp fits s.coeffs h.0 0 known in
      let (right, e, rrow, at) = reduce_payload-reduced s h 0 sl (omega arith) in
      (
        left ++ right,
        rw (read_all-lefts padded k sl hp fits s.coeffs h.0 0 known (omega arith)) (rw e refl),
        (
          omega (arith, length-append left right, lrow.0, rrow.0),
          All-append IsByte left right lrow.1 rrow.1,
        ),
        λ j b.
            let values = unknown_values padded sl j 0 known in
            let sum = known_sum padded k sl hp fits s.coeffs h.0 j 0 known in
            let z : 0 + j ≡ j = omega arith in
            subst (λ n. dot (take n (left ++ right)) values ≡ get_or (drop n (left ++ right)) j 0)
              lrow.0
              (ap (λ t. dot t values) (take-append left right)
                ∙ sym (xor_cancel (dot left values) sum)
                ∙ ap (λ t. bit_xor t sum)
                    (split_sum padded k sl hp fits s.coeffs h.0 j 0 known (omega arith)
                      ∙ ap (λ n. dot s.coeffs (column padded sl j 0 n)) size
                      ∙ h.2 j b)
                ∙ sym (
                    at j b
                    ∙ ap
                        (λ m.
                          bit_xor (get_or s.payload m 0)
                            (known_sum padded k sl hp fits s.coeffs h.0 m 0 known))
                        z)
                ∙ ap (λ t. get_or t j 0) (sym (drop-append left right))),
      )

  pub build_rows-Holds :
      (ss : List Shard)
      → All (IsTrue padded k sl hp fits) ss
      → (rows : Rows) × (build_rows new sl known ss ≡ some rows)
        × All (IsRow (n_unknown + sl)) rows
        × ((j : ℕ) → j < sl → All (Holds n_unknown (unknown_values padded sl j 0 known) j) rows)
  unfolding build_rows
  build_rows-Holds [] h = ([], refl, tt, λ j b. tt)
  build_rows-Holds (s ∷ ss) h =
      let (row, e, r, holds) = build_row-Holds s h.0 in
      let (rows, es, rs, all) = build_rows-Holds ss h.1 in
      (row ∷ rows, rw e (rw es refl), (r, rs), λ j b. (holds j b, all j b))
