-- ===== src/Rlnc/Consistent.antt =====
-- Shards of crates/holofs-core/src/rlnc.rs that are the combinations of the source chunks that their
-- coefficients say.
use holofs.Prelude.{
  ℕ, zero, suc, ◌≡◌, refl, ap, ap₂, ◌∙◌, bit_xor, List, [], ◌∷◌, get_or, replicate, arith,
}
use holofs.Shard.{Shard}
use holofs.Gf.{new, mul}
use holofs.Gf.Xor.{zero-xor}
use holofs.Gf.Field.{zero-mul}
use holofs.Rng.{Rng, byte}
use holofs.Rlnc.Encode.{add_scaled}
use holofs.Rlnc.Gauss.{subtract_row}
use holofs.Rlnc.Linear.{IsByte, IsRow, dot}

pub add_scaled-subtract_row :
    (c : ℕ) (xs ys : List ℕ) → add_scaled new c xs ys ≡ subtract_row new c xs ys
unfolding add_scaled subtract_row
add_scaled-subtract_row c [] ys = refl
add_scaled-subtract_row c (x ∷ xs) [] = refl
add_scaled-subtract_row c (x ∷ xs) (y ∷ ys) =
    ap (λ t. bit_xor x (mul new c y) ∷ t) (add_scaled-subtract_row c xs ys)

-- A shard of `k` coefficients and `sl` payload bytes whose byte in payload column `j` is the
-- combination of the bytes `xs` that the source chunks have there.
abbrev pub Consistent : ℕ → ℕ → List ℕ → ℕ → Shard → Type 0
Consistent k sl xs j s =
    IsRow k s.coeffs × IsRow sl s.payload × (dot s.coeffs xs ≡ get_or s.payload j 0)

pub zeros-IsRow : (n : ℕ) → IsRow n (replicate n 0)
zeros-IsRow zero = (refl, tt)
zeros-IsRow (suc n) = let (len, bytes) = zeros-IsRow n in (ap suc len, (omega arith, bytes))

pub dot-zeros : (n : ℕ) (xs : List ℕ) → dot (replicate n 0) xs ≡ 0
unfolding dot
dot-zeros zero xs = refl
dot-zeros (suc n) [] = refl
dot-zeros (suc n) (x ∷ xs) = ap₂ bit_xor (zero-mul x) (dot-zeros n xs) ∙ zero-xor 0

pub get_or-zeros : (n j : ℕ) → ◌≡◌ {A = ℕ} (get_or (replicate n 0) j 0) 0
get_or-zeros zero j = refl
get_or-zeros (suc n) zero = refl
get_or-zeros (suc n) (suc j) = get_or-zeros n j

pub byte-IsByte : (rng : Rng) → IsByte (byte rng).1
unfolding byte
byte-IsByte rng = omega arith
