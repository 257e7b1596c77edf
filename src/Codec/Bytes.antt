-- ===== src/Codec/Bytes.antt =====
-- `to_be_bytes` and `from_be_bytes` of Rust's unsigned integers, at a width given in bytes.
use holofs.Prelude.{
  ℕ, zero, suc, ◌+◌, ◌*◌, ◌/◌, ◌%◌, ◌^◌, ◌<◌, ◌≡◌, refl, ◌∙◌, List, [], ◌∷◌, ◌++◌, arith, length,
  length-append, All, All-append,
}
use mathlib.Core.List.{foldl, foldl-append}
use native.Mathlib.Nat.{pow-suc}

-- The low `w` bytes of a number, the most significant first.
unfoldable pub to_be_bytes : ℕ → ℕ → List ℕ
to_be_bytes zero x = []
to_be_bytes (suc w) x = to_be_bytes w (x / 256) ++ x % 256 ∷ []

abbrev pub shift_in : ℕ → ℕ → ℕ
shift_in acc b = acc * 256 + b

unfoldable pub from_be_bytes : List ℕ → ℕ
from_be_bytes bs = foldl shift_in 0 bs

abbrev pub IsByte : ℕ → Type 0
IsByte b = b < 256

pub length-to_be_bytes : (w x : ℕ) → length (to_be_bytes w x) ≡ w
unfolding to_be_bytes
length-to_be_bytes zero x = refl
length-to_be_bytes (suc w) x =
    length-append (to_be_bytes w (x / 256)) (x % 256 ∷ [])
    ∙ omega (arith, length-to_be_bytes w (x / 256))

pub to_be_bytes-IsByte : (w x : ℕ) → All IsByte (to_be_bytes w x)
unfolding to_be_bytes
to_be_bytes-IsByte zero x = tt
to_be_bytes-IsByte (suc w) x =
    All-append IsByte (to_be_bytes w (x / 256)) (x % 256 ∷ []) (to_be_bytes-IsByte w (x / 256))
      (omega arith, tt)

pub from_be_bytes-to_be_bytes : (w x : ℕ) → x < 256 ^ w → from_be_bytes (to_be_bytes w x) ≡ x
unfolding from_be_bytes to_be_bytes
from_be_bytes-to_be_bytes zero x h = omega arith
from_be_bytes-to_be_bytes (suc w) x h =
    rw foldl-append
      (omega (arith, from_be_bytes-to_be_bytes w (x / 256) (omega (arith, pow-suc 256 w))))
