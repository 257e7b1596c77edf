-- ===== src/Gf/Xor.antt =====
-- Exclusive or as the addition of GF(2^8): one equation for the lowest digit, and by induction on
-- the digits the laws of a group in which every element is its own inverse.
use Prim.Native.Nat.{digits, differ, bit_xor-bitwise}
use native.Mathlib.Nat.{pow-suc}
use holofs.Prelude.{
  ℕ, zero, suc, ◌+◌, ◌*◌, ◌/◌, ◌%◌, ◌^◌, ◌<◌, ◌≤◌, ◌≡◌, refl, ◌∙◌, ap, arith, bit_xor, max,
}

abbrev xor_digits : ℕ → ℕ → ℕ → ℕ
xor_digits n a b = digits (λ b. b) differ n a b

no_room : {a : ℕ} → suc a ≤ 0 → zero ≡ suc zero
no_room h = absurd (omega arith)

-- Once the fuel covers the first number, more of it changes nothing.
settled : (n a : ℕ) → a ≤ n → (m : ℕ) → a ≤ m → (b : ℕ) → xor_digits n a b ≡ xor_digits m a b
settled (suc n) (suc a) enough (suc m) also b =
    let half : suc a / 2 ≤ n = omega arith in
    let half' : suc a / 2 ≤ m = omega arith in
    let rest = settled n (suc a / 2) half m half' (b / 2) in omega arith
settled (suc n) (suc a) enough zero also b = let no = no_room also in absurd (omega arith)
settled zero (suc a) enough m also b = let no = no_room enough in absurd (omega arith)
settled zero zero enough zero also b = refl
settled zero zero enough (suc m) also b = refl
settled (suc n) zero enough zero also b = refl
settled (suc n) zero enough (suc m) also b = refl

differ_bits : (x y : ℕ) → x < 2 → y < 2 → differ x y ≡ (x + y) % 2
differ_bits (suc (suc x)) y hx hy = absurd (omega arith)
differ_bits zero y hx hy = omega arith
differ_bits (suc zero) (suc (suc y)) hx hy = absurd (omega arith)
differ_bits (suc zero) (suc zero) hx hy = refl
differ_bits (suc zero) zero hx hy = refl

pub zero-xor : (b : ℕ) → bit_xor 0 b ≡ b
zero-xor b = bit_xor-bitwise 0 b

pub xor_step : (a b : ℕ) → bit_xor a b ≡ bit_xor (a / 2) (b / 2) * 2 + (a % 2 + b % 2) % 2
xor_step zero b = omega (arith, zero-xor b, zero-xor (b / 2))
xor_step (suc a) b =
    let x = suc a / 2 in
    let y = b / 2 in
    let whole = bit_xor-bitwise (suc a) b in
    let halves = bit_xor-bitwise x y ∙ settled x x (omega arith) a (omega arith) y in
    let low = differ_bits (suc a % 2) (b % 2) (omega arith) (omega arith) in omega arith

xor-div : (a b : ℕ) → bit_xor a b / 2 ≡ bit_xor (a / 2) (b / 2)
xor-div a b = omega (arith, xor_step a b)

xor-mod : (a b : ℕ) → bit_xor a b % 2 ≡ (a % 2 + b % 2) % 2
xor-mod a b = omega (arith, xor_step a b)

zero_of_le : {a : ℕ} → a ≤ 0 → a ≡ 0
zero_of_le h = omega arith

comm_below : (n a b : ℕ) → a ≤ n → b ≤ n → bit_xor a b ≡ bit_xor b a
comm_below n zero zero p q = refl
comm_below zero zero (suc b) p q = absurd (omega arith)
comm_below zero (suc a) b p q = absurd (omega arith)
comm_below (suc n) a b p q =
    omega
      (arith, xor_step a b, xor_step b a, comm_below n (a / 2) (b / 2) (omega arith) (omega arith))

assoc_below :
    (n a b c : ℕ) → a ≤ n → b ≤ n → c ≤ n → bit_xor (bit_xor a b) c ≡ bit_xor a (bit_xor b c)
assoc_below zero a b c p q r = rw (zero_of_le p) (rw (zero_of_le q) (rw (zero_of_le r)))
assoc_below (suc n) a b c p q r = omega (
  arith,
  xor_step (bit_xor a b) c,
  xor_step a (bit_xor b c),
  xor-mod a b,
  xor-mod b c,
  ap (λ t. bit_xor t (c / 2)) (xor-div a b),
  ap (bit_xor (a / 2)) (xor-div b c),
  assoc_below n (a / 2) (b / 2) (c / 2) (omega arith) (omega arith) (omega arith),
)

self_below : (n a : ℕ) → a ≤ n → bit_xor a a ≡ 0
self_below n zero p = refl
self_below zero (suc a) p = absurd (omega arith)
self_below (suc n) (suc a) p =
    omega (arith, xor_step (suc a) (suc a), self_below n (suc a / 2) (omega arith))

pub xor_comm : (a b : ℕ) → bit_xor a b ≡ bit_xor b a
xor_comm a b = comm_below (max a b) a b (omega arith) (omega arith)

pub xor_assoc : (a b c : ℕ) → bit_xor (bit_xor a b) c ≡ bit_xor a (bit_xor b c)
xor_assoc a b c = assoc_below (max a (max b c)) a b c (omega arith) (omega arith) (omega arith)

pub xor_self : (a : ℕ) → bit_xor a a ≡ 0
xor_self a = self_below a a (omega arith)

pub xor-zero : (a : ℕ) → bit_xor a 0 ≡ a
xor-zero a = xor_comm a 0 ∙ zero-xor a

pub xor_below : (k a b : ℕ) → a < 2 ^ k → b < 2 ^ k → bit_xor a b < 2 ^ k
xor_below zero a b p q =
    let a0 : a ≡ 0 = omega arith in let b0 : b ≡ 0 = omega arith in rw (a0, b0) (omega arith)
xor_below (suc k) a b p q = omega (
  arith,
  xor_step a b,
  pow-suc 2 k,
  xor_below k (a / 2) (b / 2) (omega (arith, pow-suc 2 k)) (omega (arith, pow-suc 2 k)),
)

-- Adding the same value twice changes nothing.
pub xor_cancel : (a b : ℕ) → bit_xor (bit_xor a b) b ≡ a
xor_cancel a b = xor_assoc a b b ∙ (rw (xor_self b) (xor-zero a))
