-- ===== src/Gf/Polynomial.antt =====
-- The field is that of the polynomials over GF(2) modulo x^8 + x^4 + x^3 + x^2 + 1: `mul` is their
-- product, taken digit by digit without any table.
use native.Mathlib.Nat.{pow-suc}
use holofs.Prelude.{
  ℕ, zero, suc, ◌*◌, ◌/◌, ◌%◌, ◌^◌, ◌<◌, ◌≡◌, refl, sym, ap, ap₂, ◌∙◌, ltb, lt→ltb, ◌==◌,
  if◌then◌else◌, arith, bit_xor, true, ==_iff, Bool-cases, inl, inr,
}
use holofs.Gf.{new, mul}
use holofs.Gf.Tables.{every_below, every_below-at}
use holofs.Gf.Xor.{xor_step, zero-xor}
use holofs.Gf.Field.{mul_comm, mul_assoc, mul-xor, one-mul, mul-zero, mul-byte}

-- Bit `i` is the coefficient of x^i, so x times a polynomial is a shift, and x^8 is 0x1d.
pub times_x : ℕ → ℕ
times_x a = if ltb a 0x80 then a * 2 else bit_xor (a * 2) 0x11d

-- The product of `a` by the `k` low coefficients of `b`.
pub poly_mul : ℕ → ℕ → ℕ → ℕ
poly_mul zero a b = 0
poly_mul (suc k) a b = bit_xor (if b % 2 == 1 then a else 0) (poly_mul k (times_x a) (b / 2))

times_x_table : every_below 256 (λ a. times_x a == mul new 2 a) ≡ true
unfolding every_below times_x mul new
times_x_table = refl

times_x-mul : (a : ℕ) → a < 256 → times_x a ≡ mul new 2 a
times_x-mul a h =
    (==_iff (times_x a) (mul new 2 a)).0
      (every_below-at 256 (λ b. times_x b == mul new 2 b) a times_x_table h)

times_x-byte : (a : ℕ) → a < 256 → times_x a < 256
times_x-byte a h = rw (times_x-mul a h) (mul-byte 2 a (omega arith) h)

double-times_x : (h : ℕ) → h < 128 → h * 2 ≡ mul new 2 h
double-times_x h lt = double ∙ times_x-mul h (omega arith)
  where
    double : h * 2 ≡ times_x h
    double = unfold times_x in rw (lt→ltb h 0x80 lt)

mul-digit : (a b : ℕ) → a < 256 → mul new a (b % 2) ≡ (if b % 2 == 1 then a else 0)
mul-digit a b ha = elim (Bool-cases (b % 2 == 1)) [
  | inl one ↦ rw one (rw ((==_iff (b % 2) 1).0 one) (mul_comm a 1 ∙ one-mul a ha))
  | inr other ↦ let z : b % 2 ≡ 0 = ground arith in rw other (rw z (mul-zero a))
]

digits-xor : (b : ℕ) → b ≡ bit_xor (b % 2) (b / 2 * 2)
digits-xor b =
    let low : b % 2 / 2 ≡ 0 = omega arith in
    let high : b / 2 * 2 / 2 ≡ b / 2 = omega arith in
    omega (arith, xor_step (b % 2) (b / 2 * 2), ap₂ bit_xor low high, zero-xor (b / 2))

poly_mul-mul : (k a b : ℕ) → a < 256 → b < 2 ^ k → b < 256 → mul new a b ≡ poly_mul k a b
unfolding poly_mul
poly_mul-mul zero a b ha hk hb = let z : b ≡ 0 = omega arith in rw z (mul-zero a)
poly_mul-mul (suc k) a b ha hk hb =
    let h = b / 2 in
    ap (mul new a) (digits-xor b)
    ∙ mul-xor a (b % 2) (h * 2) ha (omega arith) (omega arith)
    ∙ ap₂ bit_xor (mul-digit a b ha) (
        ap (mul new a) (double-times_x h (omega arith))
        ∙ sym (mul_assoc a 2 h ha (omega arith) (omega arith))
        ∙ ap (λ t. mul new t h) (mul_comm a 2 ∙ sym (times_x-mul a ha))
        ∙ poly_mul-mul k (times_x a) h (times_x-byte a ha) (omega (arith, pow-suc 2 k))
            (omega arith))

-- On bytes `mul` is the product of polynomials modulo x^8 + x^4 + x^3 + x^2 + 1.
pub mul-poly_mul : (a b : ℕ) → a < 256 → b < 256 → mul new a b ≡ poly_mul 8 a b
mul-poly_mul a b ha hb = poly_mul-mul 8 a b ha hb hb
