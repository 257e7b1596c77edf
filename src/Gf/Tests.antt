-- ===== src/Gf/Tests.antt =====
-- Tests and instances of the theorems on crates/holofs-core/src/gf.rs.
use holofs.Prelude.{◌<◌, ◌≡◌, ◌≢◌, refl, arith}
use holofs.Gf.{new, mul, inv}
use holofs.Gf.Field.{mul_assoc, mul-inv}
use holofs.Gf.Polynomial.{poly_mul, mul-poly_mul}

two-mul : mul new 2 0x80 ≡ 0x1d
unfolding mul new
two-mul = refl

mul_assoc_example : mul new (mul new 7 200) 41 ≡ mul new 7 (mul new 200 41)
mul_assoc_example = mul_assoc 7 200 41 (omega arith) (omega arith) (omega arith)

mul-inv_example : (mul new 7 (inv new 7) ≡ 1) × (inv new 7 < 256) × (inv new 7 ≢ 0)
mul-inv_example = mul-inv 7 (omega arith) (omega arith)

mul-poly_mul_example : mul new 200 31 ≡ poly_mul 8 200 31
mul-poly_mul_example = mul-poly_mul 200 31 (omega arith) (omega arith)
