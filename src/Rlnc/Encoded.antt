-- ===== src/Rlnc/Encoded.antt =====
-- `encode_layer_with_k` of crates/holofs-core/src/rlnc.rs as a whole.
use native.Mathlib.Nat.{mul-le-mul_right, div-add-mod, mod-lt}
use holofs.Prelude.{
  ℕ, zero, suc, ◌+◌, ◌-◌, ◌*◌, ◌/◌, ◌<◌, ◌≤◌, ◌≡◌, ◌≢◌, inl, inr, refl, sym, ap, ◌∙◌, subst, min,
  List, [], ◌∷◌, ◌++◌, some, All, All-append, length, length-append, length-take, length-replicate,
  take, take-append, replicate, ◌==◌, ==_iff, Bool-cases, arith,
}
use holofs.Gf.{new}
use holofs.Rng.{Rng}
use holofs.Rlnc.Encode.{resize, systematic, random_shards, Encoded, encode_layer_with_k}
use holofs.Rlnc.Linear.{IsByte}
use holofs.Rlnc.Consistent.{Consistent, zeros-IsRow}
use holofs.Rlnc.Encoder.{column, All-take, systematic-Consistent, random_shards-Consistent}

pub length-resize : (xs : List ℕ) (n : ℕ) → length (resize xs n) ≡ n
unfolding resize
length-resize xs n = omega (
  arith,
  length-append (take n xs) (replicate (n - length xs) 0),
  length-take n xs,
  length-replicate {A = ℕ} (n - length xs) 0,
)

pub resize-bytes : (xs : List ℕ) (n : ℕ) → All IsByte xs → All IsByte (resize xs n)
unfolding resize
resize-bytes xs n h =
    All-append IsByte (take n xs) _ (All-take n xs h) (zeros-IsRow (n - length xs)).1

take_all : (xs : List ℕ) (n : ℕ) → length xs ≤ n → take n xs ≡ xs
take_all [] zero h = refl
take_all [] (suc n) h = refl
take_all (x ∷ xs) zero h = absurd (omega arith)
take_all (x ∷ xs) (suc n) h = ap (λ t. x ∷ t) (take_all xs n (omega arith))

pub take-resize : (xs : List ℕ) (n : ℕ) → length xs ≤ n → take (length xs) (resize xs n) ≡ xs
unfolding resize
take-resize xs n h =
    ap (λ t. take (length xs) (t ++ replicate (n - length xs) 0)) (take_all xs n h)
    ∙ take-append xs (replicate (n - length xs) 0)

-- The chunks have room for all of the input.
pub ceil_room : (n k : ℕ) → k ≢ 0 → n ≤ k * ((n + k - 1) / k)
ceil_room n k ne =
    let pos : 0 < k = omega arith in
    let whole = div-add-mod (n + k - 1) k in let small = mod-lt (n + k - 1) pos in omega arith

-- The encoder makes `n` shards of a layer of bytes, for any threshold `k` but zero and without a panic; the
-- padded bytes start with the input, and in each payload column `j` every shard, systematic or random, is
-- the combination of the `k` chunks of the padded bytes that its coefficients say.
pub encode_layer_with_k-Consistent :
    (input : List ℕ) (k n j : ℕ) (rng : Rng)
    → k ≢ 0
    → All IsByte input
    → (e : Encoded) × (encode_layer_with_k new input k n rng ≡ some e)
      × (length e.shards ≡ n)
      × (take (length input) (resize input (k * e.symbol_len)) ≡ input)
      × All
          (Consistent k e.symbol_len
            (column (resize input (k * e.symbol_len)) e.symbol_len j 0 k)
            j)
          e.shards
unfolding encode_layer_with_k
encode_layer_with_k-Consistent input k n j rng ne bytes =
    let sl = (length input + k - 1) / k in
    let padded = resize input (k * sl) in
    let hp = resize-bytes input (k * sl) bytes in
    let fits : (i : ℕ) → i < k → suc i * sl ≤ length padded = λ i h.
      subst (λ m. suc i * sl ≤ m) (sym (length-resize input (k * sl))) (mul-le-mul_right sl h) in
    let (sys, nsys) = systematic-Consistent padded k sl hp fits j 0 (min n k) (omega arith) in
    let (rnd, nrnd) = random_shards-Consistent padded k sl hp fits j (n - min n k) rng in
    let random = random_shards new padded k sl (n - min n k) rng in
    let out : Encoded = record {
      symbol_len = sl;
      shards = systematic padded k sl 0 (min n k) ++ random.1;
      rng = random.0;
    } in
    elim (Bool-cases (k == 0)) [
      | inl t ↦ absurd (ne ((==_iff k 0).0 t))
      | inr f ↦ (
        out,
        rw (f, encode_layer_with_k) refl,
        omega (
          arith,
          nsys,
          nrnd,
          length-append (systematic padded k sl 0 (min n k))
              (random_shards new padded k sl (n - min n k) rng).1,
        ),
        take-resize input (k * sl) (ceil_room (length input) k ne),
        All-append _ _ _ sys rnd,
      )
    ]
