-- ===== src/Gf.antt =====
-- crates/holofs-core/src/gf.rs: arithmetic in GF(2^8), by logarithm and exponent tables.
pub mod Xor
pub mod Tables
pub mod Field
pub mod Polynomial
mod Tests
use holofs.Prelude.{
  ℕ, zero, suc, ◌+◌, ◌-◌, ◌*◌, ◌%◌, ◌^◌, bit_and, bit_xor, Bool, ◌||◌, not, List, ◌==◌,
  if◌then◌else◌, get_or, set, replicate,
}

pub record Gf : Type 0 where
  pub exp : List ℕ
  pub log : List ℕ

-- `x <<= 1; if x & 0x100 != 0 { x ^= 0x11d }`
unfoldable pub next_power : ℕ → ℕ
next_power x = let y = x * 2 in if not (bit_and y 0x100 == 0) then bit_xor y 0x11d else y

-- The loop `for i in 0..255` with `n` rounds left; `x` is the power of the generator.
unfoldable pub fill_tables : ℕ → ℕ → ℕ → Gf → Gf
fill_tables zero i x t = t
fill_tables (suc n) i x t =
    fill_tables n (i + 1) (next_power x)
      (record { exp = set t.exp i x; log = set t.log x (i % 256) })

-- The loop `for i in 255..512`.
unfoldable pub double_exp : ℕ → ℕ → List ℕ → List ℕ
double_exp zero i exp = exp
double_exp (suc n) i exp = double_exp n (i + 1) (set exp i (get_or exp (i - 255) 0))

-- `Gf::new`
unfoldable pub new : Gf
unfolding fill_tables double_exp next_power
new =
    let t = fill_tables 255 0 1 (record { exp = replicate 512 0; log = replicate 256 0 }) in
    record { exp = double_exp 257 255 t.exp; log = t.log }

-- Table entries; every index below the tables' lengths 512 and 256 is in range.
abbrev pub exp_at : Gf → ℕ → ℕ
exp_at gf i = get_or gf.exp i 0

abbrev pub log_at : Gf → ℕ → ℕ
log_at gf a = get_or gf.log a 0

unfoldable pub mul : Gf → ℕ → ℕ → ℕ
mul gf a b = if a == 0 || b == 0 then 0 else exp_at gf (log_at gf a + log_at gf b)

unfoldable pub inv : Gf → ℕ → ℕ
inv gf a = exp_at gf (255 - log_at gf a)
