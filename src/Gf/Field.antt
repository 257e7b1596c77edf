-- ===== src/Gf/Field.antt =====
-- The bytes with exclusive or and `mul` are a field.
use holofs.Prelude.{
  ℕ, zero, suc, ◌+◌, ◌-◌, ◌%◌, ◌<◌, ◌≡◌, ◌≢◌, ◌⊎◌, inl, inr, refl, sym, ap, ap₂, ◌∙◌, arith,
  bit_xor,
}
use native.Mathlib.Nat.{add_comm}
use holofs.Gf.{new, next_power, exp_at, log_at, mul, inv}
use holofs.Gf.Tables.{exp-power, exp-suc, exp-mod, exp-log, next_power-xor, next_power-byte}
use holofs.Gf.Xor.{xor_below}

abbrev e : ℕ → ℕ
e i = exp_at new i

abbrev l : ℕ → ℕ
l a = log_at new a

abbrev m : ℕ → ℕ → ℕ
m a b = mul new a b

pub zero-mul : (b : ℕ) → m 0 b ≡ 0
unfolding mul
zero-mul b = refl

pub mul-zero : (a : ℕ) → m a 0 ≡ 0
unfolding mul
mul-zero a = ground arith

mul-nonzero : (a b : ℕ) → a ≢ 0 → b ≢ 0 → m a b ≡ e (l a + l b)
unfolding mul
mul-nonzero a b ha hb = ground arith

zero-or : (a : ℕ) → (a ≡ 0) ⊎ (a ≢ 0)
zero-or zero = inl refl
zero-or (suc a) = inr (omega arith)

-- A product is a byte, and zero only if a factor is.
pub mul-byte : (a b : ℕ) → a < 256 → b < 256 → mul new a b < 256
mul-byte a b ha hb = elim (zero-or a) [
  | inl za ↦ rw za (rw (zero-mul b) (omega arith))
  | inr na ↦ elim (zero-or b) [
    | inl zb ↦ rw zb (rw (mul-zero a) (omega arith))
    | inr nb ↦
        rw (mul-nonzero a b na nb)
          (exp-power (l a + l b) (omega (arith, (exp-log a ha na).0, (exp-log b hb nb).0))).1
  ]
]

pub mul_comm : (a b : ℕ) → mul new a b ≡ mul new b a
unfolding mul
mul_comm a b = ground (arith, ap e (add_comm (l a) (l b)))

module _ (a b : ℕ) (ha : a < 256) (hb : b < 256) (na : a ≢ 0) (nb : b ≢ 0) where
  sum_fits : l a + l b < 512
  sum_fits = omega (arith, (exp-log a ha na).0, (exp-log b hb nb).0)

  mul-ne-zero : m a b ≢ 0
  mul-ne-zero = rw (mul-nonzero a b na nb) (exp-power (l a + l b) sum_fits).0

  log-mul : l (m a b) ≡ (l a + l b) % 255
  log-mul = rw (mul-nonzero a b na nb) (exp-power (l a + l b) sum_fits).2

assoc_nonzero :
    (a b c : ℕ) → a < 256 → b < 256 → c < 256 → a ≢ 0 → b ≢ 0 → c ≢ 0 → m (m a b) c ≡ m a (m b c)
assoc_nonzero a b c ha hb hc na nb nc =
    mul-nonzero (m a b) c (mul-ne-zero a b ha hb na nb) nc
    ∙ exp-mod (l (m a b) + l c) (omega (arith, log-mul a b ha hb na nb, (exp-log c hc nc).0))
    ∙ ap e (omega (arith, log-mul a b ha hb na nb, log-mul b c hb hc nb nc))
    ∙ sym (exp-mod (l a + l (m b c)) (omega (arith, log-mul b c hb hc nb nc, (exp-log a ha na).0)))
    ∙ sym (mul-nonzero a (m b c) na (mul-ne-zero b c hb hc nb nc))

-- Multiplication of bytes is associative.
pub mul_assoc :
    (a b c : ℕ) → a < 256 → b < 256 → c < 256 → mul new (mul new a b) c ≡ mul new a (mul new b c)
mul_assoc a b c ha hb hc = elim (zero-or a) [
  | inl z ↦ rw z (simp zero-mul)
  | inr na ↦ elim (zero-or b) [
    | inl z ↦ rw z (simp (zero-mul, mul-zero))
    | inr nb ↦ elim (zero-or c) [
      | inl z ↦ rw z (simp mul-zero)
      | inr nc ↦ assoc_nonzero a b c ha hb hc na nb nc
    ]
  ]
]

exp-zero : e 0 ≡ 1
unfolding new
exp-zero = refl

log-one : l 1 ≡ 0
unfolding new
log-one = refl

pub one-mul : (a : ℕ) → a < 256 → mul new 1 a ≡ a
one-mul a ha = elim (zero-or a) [
  | inl z ↦ rw z (mul-zero 1)
  | inr na ↦ mul-nonzero 1 a (omega arith) na ∙ ap e (omega (arith, log-one)) ∙ (exp-log a ha na).1
]

-- Every byte but zero has an inverse, and `inv` returns it: a byte other than zero.
pub mul-inv :
    (a : ℕ) → a < 256 → a ≢ 0 → (mul new a (inv new a) ≡ 1) × (inv new a < 256) × (inv new a ≢ 0)
unfolding inv
mul-inv a ha na =
    let la = (exp-log a ha na).0 in
    let p = exp-power (255 - l a) (omega arith) in
    (
      mul-nonzero a (e (255 - l a)) na p.0
          ∙ exp-mod (l a + l (e (255 - l a))) (omega (arith, p.2))
          ∙ ap e (omega (arith, p.2, la))
          ∙ exp-zero,
      p.1,
      p.0,
    )

-- `i` steps of the table loop.
powers : ℕ → ℕ → ℕ
powers zero b = b
powers (suc i) b = next_power (powers i b)

powers-byte : (i b : ℕ) → b < 256 → powers i b < 256
unfolding powers
powers-byte zero b h = h
powers-byte (suc i) b h = next_power-byte (powers i b) (powers-byte i b h)

powers-xor :
    (i a b : ℕ) → a < 256 → b < 256 → powers i (bit_xor a b) ≡ bit_xor (powers i a) (powers i b)
unfolding powers
powers-xor zero a b ha hb = refl
powers-xor (suc i) a b ha hb =
    ap next_power (powers-xor i a b ha hb)
    ∙ next_power-xor (powers i a) (powers i b) (powers-byte i a ha) (powers-byte i b hb)

next_power-zero : next_power 0 ≡ 0
unfolding next_power
next_power-zero = refl

powers-zero : (i : ℕ) → powers i 0 ≡ 0
unfolding powers
powers-zero zero = refl
powers-zero (suc i) = ap next_power (powers-zero i) ∙ next_power-zero

powers-exp : (i k : ℕ) → i + k < 512 → powers i (e k) ≡ e (i + k)
unfolding powers
powers-exp zero k h = ap e (omega arith)
powers-exp (suc i) k h =
    ap next_power (powers-exp i k (omega arith))
    ∙ sym (exp-suc (i + k) (omega arith))
    ∙ ap e (omega arith)

-- Multiplying by the power `i` of the generator is taking `i` steps.
mul-powers : (a b : ℕ) → a < 256 → b < 256 → a ≢ 0 → m a b ≡ powers (l a) b
mul-powers a b ha hb na = elim (zero-or b) [
  | inl z ↦ rw z (mul-zero a ∙ sym (powers-zero (l a)))
  | inr nb ↦
      mul-nonzero a b na nb
      ∙ sym (powers-exp (l a) (l b) (sum_fits a b ha hb na nb))
      ∙ ap (powers (l a)) (exp-log b hb nb).1
]

-- Multiplication of bytes distributes over exclusive or.
pub mul-xor :
    (a b c : ℕ)
    → a < 256
    → b < 256
    → c < 256
    → mul new a (bit_xor b c) ≡ bit_xor (mul new a b) (mul new a c)
mul-xor a b c ha hb hc = elim (zero-or a) [
  | inl z ↦ rw z (simp zero-mul)
  | inr na ↦
      mul-powers a (bit_xor b c) ha (xor_below 8 b c hb hc) na
      ∙ powers-xor (l a) b c hb hc
      ∙ ap₂ bit_xor (sym (mul-powers a b ha hb na)) (sym (mul-powers a c ha hc na))
]
