-- ===== src/Rng.antt =====
-- crates/holofs-core/src/rng.rs: the xorshift64 generator. A `u64` is a number below 2 ^ 64.
use holofs.Prelude.{ℕ, ◌*◌, ◌/◌, ◌%◌, ◌^◌, bit_or, bit_xor}

pub record Rng : Type 0 where
  pub state : ℕ

unfoldable pub new : ℕ → Rng
new seed = record { state = bit_or seed 1 }

unfoldable pub next : Rng → Rng × ℕ
next rng =
    let a = bit_xor rng.state (rng.state * 2 ^ 13 % 2 ^ 64) in
    let b = bit_xor a (a / 2 ^ 7) in
    let c = bit_xor b (b * 2 ^ 17 % 2 ^ 64) in (record { state = c }, c)

unfoldable pub byte : Rng → Rng × ℕ
unfolding next
byte rng = let (rng', x) = next rng in (rng', x / 2 ^ 33 % 256)
