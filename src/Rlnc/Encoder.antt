-- ===== src/Rlnc/Encoder.antt =====
-- The encoder of crates/holofs-core/src/rlnc.rs makes shards that are true to the source chunks.
use native.Mathlib.Nat.{suc-mul}
use holofs.Prelude.{
  ℕ, zero, suc, ◌+◌, ◌*◌, ◌<◌, ◌≤◌, ◌≡◌, inl, inr, refl, sym, ap, ap₂, ◌∙◌, subst, bit_xor, List,
  [], ◌∷◌, All, length, length-take, length-drop, length-replicate, length-set, take, drop, get_or,
  set, replicate, ltb, ◌==◌, ==_iff, Bool-cases, arith,
}
use holofs.Gf.{new, mul}
use holofs.Gf.Xor.{zero-xor, xor-zero, xor_assoc, xor_below}
use holofs.Gf.Field.{zero-mul, mul_comm}
use holofs.Rng.{Rng, byte}
use holofs.Rlnc.Encode.{
  chunk, unit_vector, systematic, random_bytes, count_nonzero, guard_coeffs, add_scaled, combine,
  random_shards,
}
use holofs.Rlnc.Linear.{IsByte, IsRow, dot, subtract_row-IsRow, get_or-subtract_row, get_or-IsByte}
use holofs.Rlnc.Pivot.{All-set}
use holofs.Rlnc.Solution.{dot-unit_vector, unit_vector-bytes, All-drop}
use holofs.Rlnc.Consistent.{
  Consistent, add_scaled-subtract_row, zeros-IsRow, get_or-zeros, byte-IsByte,
}

-- The bytes that the chunks from the `i`-th on, `n` of them, have in column `j`.
unfoldable pub column : List ℕ → ℕ → ℕ → ℕ → ℕ → List ℕ
column padded sl j i zero = []
column padded sl j i (suc n) = get_or (chunk padded sl i) j 0 ∷ column padded sl j (i + 1) n

pub length-column : (padded : List ℕ) (sl j i n : ℕ) → length (column padded sl j i n) ≡ n
unfolding column
length-column padded sl j i zero = refl
length-column padded sl j i (suc n) = ap suc (length-column padded sl j (i + 1) n)

pub get_or-column :
    (padded : List ℕ) (sl j i n c : ℕ)
    → c < n
    → get_or (column padded sl j i n) c 0 ≡ get_or (chunk padded sl (i + c)) j 0
unfolding column
get_or-column padded sl j i zero c h = absurd (omega arith)
get_or-column padded sl j i (suc n) zero h =
    let e : i ≡ i + 0 = omega arith in ap (λ k. get_or (chunk padded sl k) j 0) e
get_or-column padded sl j i (suc n) (suc c) h =
    let e : i + 1 + c ≡ i + suc c = omega arith in
    get_or-column padded sl j (i + 1) n c (omega arith) ∙ ap (λ k. get_or (chunk padded sl k) j 0) e

pub All-take : (n : ℕ) (xs : List ℕ) → All IsByte xs → All IsByte (take n xs)
All-take zero xs h = tt
All-take (suc n) [] h = tt
All-take (suc n) (x ∷ xs) h = (h.0, All-take n xs h.1)

pub chunk-IsRow :
    (padded : List ℕ) (sl i : ℕ)
    → All IsByte padded
    → suc i * sl ≤ length padded
    → IsRow sl (chunk padded sl i)
unfolding chunk
chunk-IsRow padded sl i h fits = (
  omega (arith, length-take sl (drop (i * sl) padded), length-drop (i * sl) padded, suc-mul i sl),
  All-take sl (drop (i * sl) padded) (All-drop (i * sl) padded h),
)

dot_comm : (xs ys : List ℕ) → dot xs ys ≡ dot ys xs
unfolding dot
dot_comm [] [] = refl
dot_comm [] (y ∷ ys) = refl
dot_comm (x ∷ xs) [] = refl
dot_comm (x ∷ xs) (y ∷ ys) = ap₂ bit_xor (mul_comm x y) (dot_comm xs ys)

length-unit_vector : (k i : ℕ) → length (unit_vector k i) ≡ k
unfolding unit_vector
length-unit_vector k i = length-set (replicate k 0) i 1 ∙ length-replicate k 0

random_bytes-IsRow : (n : ℕ) (rng : Rng) → IsRow n (random_bytes n rng).1
unfolding random_bytes
random_bytes-IsRow zero rng = (refl, tt)
random_bytes-IsRow (suc n) rng =
    let (len, bytes) = random_bytes-IsRow n (byte rng).0 in (ap suc len, (byte-IsByte rng, bytes))

guard_coeffs-IsRow : (k : ℕ) (cs : List ℕ) → IsRow k cs → IsRow k (guard_coeffs k cs)
unfolding guard_coeffs
guard_coeffs-IsRow k cs h =
    let a = bit_xor (get_or cs 0 0) 0x80 in
    let ha = xor_below 8 (get_or cs 0 0) 0x80 (get_or-IsByte cs 0 h.1) (omega arith) in
    let first = set cs 0 a in
    let hf = All-set IsByte cs 0 a h.1 ha in
    let b = bit_xor (get_or first 1 0) 0x40 in
    let hb = xor_below 8 (get_or first 1 0) 0x40 (get_or-IsByte first 1 hf) (omega arith) in
    elim (Bool-cases (ltb (count_nonzero cs) 2)) [
      | inl t ↦ rw t (elim (Bool-cases (ltb 1 k)) [
        | inl u ↦
            rw u (length-set first 1 b ∙ length-set cs 0 a ∙ h.0, All-set IsByte first 1 b hf hb)
        | inr u ↦ rw u (length-set cs 0 a ∙ h.0, hf)
      ])
      | inr f ↦ rw f h
    ]

-- The chunks below `k` lie within the padded bytes.
abbrev pub Fits : ℕ → ℕ → List ℕ → Type 0
Fits k sl padded = (i : ℕ) → i < k → suc i * sl ≤ length padded

module _ (padded : List ℕ) (k sl : ℕ) (hp : All IsByte padded) (fits : Fits k sl padded)
    (j : ℕ) where
  abbrev values : List ℕ
  values = column padded sl j 0 k

  pub column-IsByte : (i n : ℕ) → i + n ≤ k → All IsByte (column padded sl j i n)
  unfolding column
  column-IsByte i zero h = tt
  column-IsByte i (suc n) h = (
    get_or-IsByte (chunk padded sl i) j (chunk-IsRow padded sl i hp (fits i (omega arith))).1,
    column-IsByte (i + 1) n (omega arith),
  )

  combine-entry :
      (cs : List ℕ) (i : ℕ) (payload : List ℕ)
      → i + length cs ≤ k
      → All IsByte cs
      → IsRow sl payload
      → IsRow sl (combine new padded sl i cs payload)
        × (get_or (combine new padded sl i cs payload) j 0
            ≡ bit_xor (get_or payload j 0) (dot cs (column padded sl j i (length cs))))
  unfolding combine dot column
  combine-entry [] i payload h hc hr = (hr, sym (xor-zero (get_or payload j 0)))
  combine-entry (c ∷ cs) i payload h hc hr =
      let src = chunk padded sl i in
      let x = get_or src j 0 in
      let p = get_or payload j 0 in
      let rest = dot cs (column padded sl j (i + 1) (length cs)) in
      let hs = chunk-IsRow padded sl i hp (fits i (omega arith)) in
      elim (Bool-cases (c == 0)) [
        | inl t ↦
            let (row, entry) = combine-entry cs (i + 1) payload (omega arith) hc.1 hr in
            rw t (
              row,
              entry
                  ∙ ap (bit_xor p) (
                      sym (zero-xor rest)
                      ∙ ap (λ a. bit_xor a rest)
                          (sym (zero-mul x) ∙ ap (λ a. mul new a x) (sym ((==_iff c 0).0 t)))),
            )
        | inr f ↦
            let added = add_scaled new c payload src in
            let same = add_scaled-subtract_row c payload src in
            let hadd =
              subst (IsRow sl) (sym same) (subtract_row-IsRow c sl payload src hc.0 hr hs) in
            let (row, entry) = combine-entry cs (i + 1) added (omega arith) hc.1 hadd in
            rw f (
              row,
              entry
                  ∙ ap (λ a. bit_xor a rest)
                      (ap (λ r. get_or r j 0) same
                        ∙ get_or-subtract_row c payload src j (omega (arith, hr.0, hs.0)))
                  ∙ xor_assoc p (mul new c x) rest,
            )
      ]

  pub random_shards-Consistent :
      (n : ℕ) (rng : Rng)
      → All (Consistent k sl values j) (random_shards new padded k sl n rng).1
        × (length (random_shards new padded k sl n rng).1 ≡ n)
  unfolding random_shards
  random_shards-Consistent zero rng = (tt, refl)
  random_shards-Consistent (suc n) rng =
      let drawn = random_bytes k rng in
      let cs = guard_coeffs k drawn.1 in
      let hc = guard_coeffs-IsRow k drawn.1 (random_bytes-IsRow k rng) in
      let (row, entry) =
        combine-entry cs 0 (replicate sl 0) (omega (arith, hc.0)) hc.1 (zeros-IsRow sl) in
      let (more, len) = random_shards-Consistent n drawn.0 in
      (
        (
          (
            hc,
            row,
            subst
                (λ m.
                  dot cs (column padded sl j 0 m)
                  ≡ get_or (combine new padded sl 0 cs (replicate sl 0)) j 0)
                hc.0
                (sym (
                  entry
                  ∙ ap (λ a. bit_xor a (dot cs (column padded sl j 0 (length cs))))
                      (get_or-zeros sl j)
                  ∙ zero-xor _)),
          ),
          more,
        ),
        ap suc len,
      )

  pub systematic-Consistent :
      (i n : ℕ)
      → i + n ≤ k
      → All (Consistent k sl values j) (systematic padded k sl i n)
        × (length (systematic padded k sl i n) ≡ n)
  unfolding systematic
  systematic-Consistent i zero h = (tt, refl)
  systematic-Consistent i (suc n) h =
      let (more, len) = systematic-Consistent (i + 1) n (omega arith) in
      (
        (
          (
            (length-unit_vector k i, unit_vector-bytes k i),
            chunk-IsRow padded sl i hp (fits i (omega arith)),
            dot_comm (unit_vector k i) values
                ∙ dot-unit_vector values k i (column-IsByte 0 k (omega arith)) (omega arith)
                ∙ get_or-column padded sl j 0 k i (omega arith)
                ∙ (let e : 0 + i ≡ i = omega arith in ap (λ t. get_or (chunk padded sl t) j 0) e),
          ),
          more,
        ),
        ap suc len,
      )
