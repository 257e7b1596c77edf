-- ===== src/Codec/Io.antt =====
-- `std::io::Result`. Of an `io::Error` the kind is kept; the message is not modelled.
use holofs.Prelude.{◌≡◌}

pub data ErrorKind : Type 0 where
  unexpected_eof invalid_data invalid_input connection_refused : ErrorKind

pub data Result {ℓ} (A : Type ℓ) : Type ℓ where
  ok : A → Result A
  err : ErrorKind → Result A

-- Applies a function to a successful value.
unfoldable pub map_ok {ℓ κ} : {A : Type ℓ} {B : Type κ} → (A → B) → Result A → Result B
map_ok f (ok a) = ok (f a)
map_ok f (err e) = err e

pub ok_injective {ℓ} : {A : Type ℓ} {x y : A} → ok x ≡ ok y → x ≡ y
ok_injective e = cc
