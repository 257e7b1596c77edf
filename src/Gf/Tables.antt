-- ===== src/Gf/Tables.antt =====
-- What the tables of `Gf::new` hold, checked entry by entry.
use holofs.Prelude.{
  ℕ, zero, suc, ◌+◌, ◌%◌, ◌<◌, ◌≡◌, ◌≢◌, refl, Bool, true, ◌&&◌, ◌||◌, not, if◌then◌else◌, ◌==◌,
  ltb, arith, bit_xor, ==_iff, ltb→lt,
}
use holofs.Gf.{new, next_power, exp_at, log_at}

-- The test holds at every number below the bound.
unfoldable pub every_below : ℕ → (ℕ → Bool) → Bool
every_below zero test = true
every_below (suc bound) test =
    let lower = every_below bound test in if test bound then lower else Bool.false

pub every_below-at :
    (bound : ℕ) (test : ℕ → Bool) (i : ℕ)
    → every_below bound test ≡ true
    → i < bound
    → test i ≡ true
unfolding every_below
every_below-at (suc bound) test i holds inside = ground (arith, every_below-at bound test i)
every_below-at zero test i holds inside = absurd (omega arith)

-- Every power is a byte other than zero, has its exponent for logarithm, and yields the next one.
power_ok : ℕ → Bool
power_ok i = let e = exp_at new i in not (e == 0) && ltb e 256 && log_at new e == i % 255

powers_table : every_below 512 power_ok ≡ true
unfolding every_below power_ok new
powers_table = refl

power_facts :
    (i : ℕ)
    → power_ok i ≡ true
    → (exp_at new i ≢ 0) × (exp_at new i < 256) × (log_at new (exp_at new i) ≡ i % 255)
unfolding power_ok
power_facts i h = (ground arith, ground arith, ground arith)

successor_ok : ℕ → Bool
successor_ok i = exp_at new (i + 1) == next_power (exp_at new i)

successors_table : every_below 511 successor_ok ≡ true
unfolding every_below successor_ok new
successors_table = refl

log_ok : ℕ → Bool
log_ok a = a == 0 || (ltb (log_at new a) 255 && exp_at new (log_at new a) == a)

logs_table : every_below 256 log_ok ≡ true
unfolding every_below log_ok new
logs_table = refl

log_facts :
    (a : ℕ) → a ≢ 0 → log_ok a ≡ true → (log_at new a < 255) × (exp_at new (log_at new a) ≡ a)
unfolding log_ok
log_facts a ne h = (ground arith, ground arith)

period_ok : ℕ → Bool
period_ok i = exp_at new i == exp_at new (i % 255)

period_table : every_below 512 period_ok ≡ true
unfolding every_below period_ok new
period_table = refl

linear_ok : ℕ → Bool
linear_ok a =
    every_below 256 (λ b. next_power (bit_xor a b) == bit_xor (next_power a) (next_power b))

linear_table : every_below 256 linear_ok ≡ true
unfolding every_below linear_ok next_power
linear_table = refl

pub exp-power :
    (i : ℕ)
    → i < 512
    → (exp_at new i ≢ 0) × (exp_at new i < 256) × (log_at new (exp_at new i) ≡ i % 255)
exp-power i h = let e = every_below-at 512 power_ok i powers_table h in power_facts i e

pub exp-suc : (i : ℕ) → i < 511 → exp_at new (i + 1) ≡ next_power (exp_at new i)
exp-suc i h =
    (==_iff _ _).0 (unfold successor_ok in every_below-at 511 successor_ok i successors_table h)

pub exp-mod : (i : ℕ) → i < 512 → exp_at new i ≡ exp_at new (i % 255)
exp-mod i h = (==_iff _ _).0 (unfold period_ok in every_below-at 512 period_ok i period_table h)

pub exp-log : (a : ℕ) → a < 256 → a ≢ 0 → (log_at new a < 255) × (exp_at new (log_at new a) ≡ a)
exp-log a h ne = log_facts a ne (every_below-at 256 log_ok a logs_table h)

linear_row :
    (a b : ℕ)
    → linear_ok a ≡ true
    → b < 256
    → next_power (bit_xor a b) ≡ bit_xor (next_power a) (next_power b)
unfolding linear_ok
linear_row a b h lt =
    (==_iff (next_power (bit_xor a b)) (bit_xor (next_power a) (next_power b))).0 (
      every_below-at 256 (λ c. next_power (bit_xor a c) == bit_xor (next_power a) (next_power c)) b
        h lt)

pub next_power-xor :
    (a b : ℕ) → a < 256 → b < 256 → next_power (bit_xor a b) ≡ bit_xor (next_power a) (next_power b)
next_power-xor a b ha hb = linear_row a b (every_below-at 256 linear_ok a linear_table ha) hb

bytes_table : every_below 256 (λ a. ltb (next_power a) 256) ≡ true
unfolding every_below next_power
bytes_table = refl

pub next_power-byte : (a : ℕ) → a < 256 → next_power a < 256
next_power-byte a h =
    ltb→lt (next_power a) 256 (every_below-at 256 (λ b. ltb (next_power b) 256) a bytes_table h)
