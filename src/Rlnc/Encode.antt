-- ===== src/Rlnc/Encode.antt =====
-- `encode_layer_with_k` and `encode_layer` of crates/holofs-core/src/rlnc.rs.
use holofs.Prelude.{
  ℕ, zero, suc, ◌+◌, ◌-◌, ◌*◌, ◌/◌, min, bit_xor, List, [], ◌∷◌, ◌++◌, Option, none, some, ltb,
  ◌==◌, if◌then◌else◌, length, get_or, set, take, drop, replicate,
}
use holofs.Shard.{Shard}
use holofs.Gf.{Gf, mul}
use holofs.Rng.{Rng, byte}

-- `&padded[i * symbol_len..(i + 1) * symbol_len]`
unfoldable pub chunk : List ℕ → ℕ → ℕ → List ℕ
chunk padded symbol_len i = take symbol_len (drop (i * symbol_len) padded)

-- `Vec::resize` with zeros.
unfoldable pub resize : List ℕ → ℕ → List ℕ
resize xs n = take n xs ++ replicate (n - length xs) 0

-- The basis vector e_i.
unfoldable pub unit_vector : ℕ → ℕ → List ℕ
unit_vector k i = set (replicate k 0) i 1

-- The systematic shards from the `i`-th on, `n` of them.
unfoldable pub systematic : List ℕ → ℕ → ℕ → ℕ → ℕ → List Shard
systematic padded k symbol_len i zero = []
systematic padded k symbol_len i (suc n) =
    record { coeffs = unit_vector k i; payload = chunk padded symbol_len i }
    ∷ systematic padded k symbol_len (i + 1) n

-- `n` random bytes.
unfoldable pub random_bytes : ℕ → Rng → Rng × List ℕ
random_bytes zero rng = (rng, [])
random_bytes (suc n) rng =
    let (rng', b) = byte rng in let (rng'', bs) = random_bytes n rng' in (rng'', b ∷ bs)

unfoldable pub count_nonzero : List ℕ → ℕ
count_nonzero [] = 0
count_nonzero (b ∷ bs) = let n = count_nonzero bs in if b == 0 then n else suc n

-- The guard against coefficient vectors with fewer than two non-zero positions.
unfoldable pub guard_coeffs : ℕ → List ℕ → List ℕ
guard_coeffs k coeffs =
    let first = set coeffs 0 (bit_xor (get_or coeffs 0 0) 0x80) in
    let second = set first 1 (bit_xor (get_or first 1 0) 0x40) in
    if ltb (count_nonzero coeffs) 2 then (if ltb 1 k then second else first) else coeffs

-- `payload[j] ^= gf.mul(ci, src[j])` for every `j`.
unfoldable pub add_scaled : Gf → ℕ → List ℕ → List ℕ → List ℕ
add_scaled gf c [] src = []
add_scaled gf c (p ∷ ps) [] = p ∷ ps
add_scaled gf c (p ∷ ps) (s ∷ ss) = bit_xor p (mul gf c s) ∷ add_scaled gf c ps ss

-- The payload of a random combination: the loop over the coefficients from position `i` on.
unfoldable pub combine : Gf → List ℕ → ℕ → ℕ → List ℕ → List ℕ → List ℕ
combine gf padded symbol_len i [] payload = payload
combine gf padded symbol_len i (ci ∷ cs) payload =
    combine gf padded symbol_len (i + 1) cs
      (if ci == 0 then payload else add_scaled gf ci payload (chunk padded symbol_len i))

unfoldable pub random_shards : Gf → List ℕ → ℕ → ℕ → ℕ → Rng → Rng × List Shard
random_shards gf padded k symbol_len zero rng = (rng, [])
random_shards gf padded k symbol_len (suc n) rng =
    let (rng', bytes) = random_bytes k rng in
    let coeffs = guard_coeffs k bytes in
    let payload = combine gf padded symbol_len 0 coeffs (replicate symbol_len 0) in
    let (rng'', shards) = random_shards gf padded k symbol_len n rng' in
    (rng'', record { coeffs = coeffs; payload = payload } ∷ shards)

pub record Encoded : Type 0 where
  pub symbol_len : ℕ
  pub shards : List Shard
  pub rng : Rng

-- `none` is the panic of a division by `k`, which is zero.
unfoldable pub encode_layer_with_k : Gf → List ℕ → ℕ → ℕ → Rng → Option Encoded
encode_layer_with_k gf input k n rng =
    if k == 0
    then none
    else let symbol_len = (length input + k - 1) / k in
      let padded = resize input (k * symbol_len) in
      let n_systematic = min n k in
      let (rng', random) = random_shards gf padded k symbol_len (n - n_systematic) rng in
      some (record {
        symbol_len = symbol_len;
        shards = systematic padded k symbol_len 0 n_systematic ++ random;
        rng = rng';
      })

-- `crate::K`
abbrev pub default_k : ℕ
default_k = 16

-- The same with the constant `K`, for which the test `k > 1` of the guard is left out.
unfoldable pub encode_layer : Gf → List ℕ → ℕ → Rng → Option Encoded
encode_layer gf input n rng = encode_layer_with_k gf input default_k n rng
