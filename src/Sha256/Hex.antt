-- ===== src/Sha256/Hex.antt =====
-- `hex` of crates/holofs-core/src/hash.rs.
use holofs.Prelude.{
  ℕ, ◌+◌, ◌-◌, ◌*◌, ◌/◌, ◌%◌, ◌<◌, ◌≡◌, refl, ap₂, List, [], ◌∷◌, All, length, ltb, if◌then◌else◌,
  arith,
}

-- A digit of the format `{:02x}`.
unfoldable pub hex_digit : ℕ → ℕ
hex_digit d = if ltb d 10 then b'0' + d else b'a' + (d - 10)

unfoldable pub hex : List ℕ → List ℕ
hex [] = []
hex (b ∷ bytes) = hex_digit (b / 16) ∷ hex_digit (b % 16) ∷ hex bytes

pub hex_digit-injective : (x y : ℕ) → x < 16 → y < 16 → hex_digit x ≡ hex_digit y → x ≡ y
unfolding hex_digit
hex_digit-injective x y hx hy e = ground arith

cons_cancel : {x y : ℕ} {xs ys : List ℕ} → x ∷ xs ≡ y ∷ ys → (x ≡ y) × (xs ≡ ys)
cons_cancel e = (cc, cc)

-- Different byte strings have different hexadecimal texts.
pub hex-injective :
    (xs ys : List ℕ) → All (λ b. b < 256) xs → All (λ b. b < 256) ys → hex xs ≡ hex ys → xs ≡ ys
unfolding hex
hex-injective [] [] hx hy e = refl
hex-injective [] (y ∷ ys) hx hy e = absurd (cc)
hex-injective (x ∷ xs) [] hx hy e = absurd (cc)
hex-injective (x ∷ xs) (y ∷ ys) hx hy e =
    let (e1, rest) = cons_cancel e in
    let (e2, more) = cons_cancel rest in
    let high = hex_digit-injective (x / 16) (y / 16) (omega arith) (omega arith) e1 in
    let low = hex_digit-injective (x % 16) (y % 16) (omega arith) (omega arith) e2 in
    ap₂ (λ b t. b ∷ t) (omega arith) (hex-injective xs ys hx.1 hy.1 more)

pub length-hex : (xs : List ℕ) → length (hex xs) ≡ 2 * length xs
unfolding hex
length-hex [] = omega arith
length-hex (x ∷ xs) = omega (arith, length-hex xs)
