-- ===== src/Sha256/Compress.antt =====
-- `process_block` of crates/holofs-core/src/hash.rs.
use holofs.Prelude.{
  ℕ, zero, suc, ◌+◌, ◌-◌, ◌*◌, ◌/◌, ◌%◌, ◌^◌, bit_and, bit_xor, List, [], ◌∷◌, ◌++◌, get_or, take,
  drop,
}
use holofs.Codec.Bytes.{from_be_bytes}

-- `K`
abbrev pub round_constants : List ℕ
round_constants =
    0x428a2f98 ∷ 0x71374491 ∷ 0xb5c0fbcf ∷ 0xe9b5dba5 ∷ 0x3956c25b ∷ 0x59f111f1 ∷ 0x923f82a4
    ∷ 0xab1c5ed5 ∷ 0xd807aa98 ∷ 0x12835b01 ∷ 0x243185be ∷ 0x550c7dc3 ∷ 0x72be5d74 ∷ 0x80deb1fe
    ∷ 0x9bdc06a7 ∷ 0xc19bf174 ∷ 0xe49b69c1 ∷ 0xefbe4786 ∷ 0x0fc19dc6 ∷ 0x240ca1cc ∷ 0x2de92c6f
    ∷ 0x4a7484aa ∷ 0x5cb0a9dc ∷ 0x76f988da ∷ 0x983e5152 ∷ 0xa831c66d ∷ 0xb00327c8 ∷ 0xbf597fc7
    ∷ 0xc6e00bf3 ∷ 0xd5a79147 ∷ 0x06ca6351 ∷ 0x14292967 ∷ 0x27b70a85 ∷ 0x2e1b2138 ∷ 0x4d2c6dfc
    ∷ 0x53380d13 ∷ 0x650a7354 ∷ 0x766a0abb ∷ 0x81c2c92e ∷ 0x92722c85 ∷ 0xa2bfe8a1 ∷ 0xa81a664b
    ∷ 0xc24b8b70 ∷ 0xc76c51a3 ∷ 0xd192e819 ∷ 0xd6990624 ∷ 0xf40e3585 ∷ 0x106aa070 ∷ 0x19a4c116
    ∷ 0x1e376c08 ∷ 0x2748774c ∷ 0x34b0bcb5 ∷ 0x391c0cb3 ∷ 0x4ed8aa4a ∷ 0x5b9cca4f ∷ 0x682e6ff3
    ∷ 0x748f82ee ∷ 0x78a5636f ∷ 0x84c87814 ∷ 0x8cc70208 ∷ 0x90befffa ∷ 0xa4506ceb ∷ 0xbef9a3f7
    ∷ 0xc67178f2 ∷ []

abbrev pub h_init : List ℕ
h_init =
    0x6a09e667 ∷ 0xbb67ae85 ∷ 0x3c6ef372 ∷ 0xa54ff53a ∷ 0x510e527f ∷ 0x9b05688c ∷ 0x1f83d9ab
    ∷ 0x5be0cd19 ∷ []

abbrev w32 : ℕ → ℕ
w32 x = x % 2 ^ 32

-- `u32::rotate_right`
unfoldable pub rotate_right : ℕ → ℕ → ℕ
rotate_right x n = x / 2 ^ n + x % 2 ^ n * 2 ^ (32 - n)

-- The words of the block from the `i`-th on, `n` of them.
unfoldable pub block_words : List ℕ → ℕ → ℕ → List ℕ
block_words block i zero = []
block_words block i (suc n) =
    from_be_bytes (take 4 (drop (i * 4) block)) ∷ block_words block (i + 1) n

-- The loop `for i in 16..64`; `w` has the first `i` words.
unfoldable pub schedule : ℕ → ℕ → List ℕ → List ℕ
schedule i zero w = w
schedule i (suc n) w =
    let x = get_or w (i - 15) 0 in
    let y = get_or w (i - 2) 0 in
    let s0 = bit_xor (bit_xor (rotate_right x 7) (rotate_right x 18)) (x / 2 ^ 3) in
    let s1 = bit_xor (bit_xor (rotate_right y 17) (rotate_right y 19)) (y / 2 ^ 10) in
    schedule (i + 1) n
      (w ++ w32 (w32 (w32 (get_or w (i - 16) 0 + s0) + get_or w (i - 7) 0) + s1) ∷ [])

pub record Working : Type 0 where
  pub a : ℕ
  pub b : ℕ
  pub c : ℕ
  pub d : ℕ
  pub e : ℕ
  pub f : ℕ
  pub g : ℕ
  pub hh : ℕ

-- One round, with the constant `k` and the word `w`.
unfoldable pub round : ℕ → ℕ → Working → Working
round k w v =
    let s1 = bit_xor (bit_xor (rotate_right v.e 6) (rotate_right v.e 11)) (rotate_right v.e 25) in
    let ch = bit_xor (bit_and v.e v.f) (bit_and (2 ^ 32 - 1 - v.e) v.g) in
    let t1 = w32 (w32 (w32 (w32 (v.hh + s1) + ch) + k) + w) in
    let s0 = bit_xor (bit_xor (rotate_right v.a 2) (rotate_right v.a 13)) (rotate_right v.a 22) in
    let maj = bit_xor (bit_xor (bit_and v.a v.b) (bit_and v.a v.c)) (bit_and v.b v.c) in
    let t2 = w32 (s0 + maj) in
    record {
      a = w32 (t1 + t2);
      b = v.a;
      c = v.b;
      d = v.c;
      e = w32 (v.d + t1);
      f = v.e;
      g = v.f;
      hh = v.g;
    }

unfoldable pub rounds : List ℕ → List ℕ → Working → Working
rounds [] ws v = v
rounds (k ∷ ks) [] v = v
rounds (k ∷ ks) (w ∷ ws) v = rounds ks ws (round k w v)

unfoldable pub process_block : List ℕ → List ℕ → List ℕ
process_block h block =
    let w = schedule 16 48 (block_words block 0 16) in
    let at : ℕ → ℕ = λ i. get_or h i 0 in
    let v = rounds round_constants w (record {
      a = at 0;
      b = at 1;
      c = at 2;
      d = at 3;
      e = at 4;
      f = at 5;
      g = at 6;
      hh = at 7;
    }) in
    w32 (at 0 + v.a)
    ∷ w32 (at 1 + v.b)
    ∷ w32 (at 2 + v.c)
    ∷ w32 (at 3 + v.d)
    ∷ w32 (at 4 + v.e)
    ∷ w32 (at 5 + v.f)
    ∷ w32 (at 6 + v.g)
    ∷ w32 (at 7 + v.hh)
    ∷ []
