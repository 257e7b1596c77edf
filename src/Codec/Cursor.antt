-- ===== src/Codec/Cursor.antt =====
-- `Cursor` of crates/holofs-wire/src/wire.rs (and its copy in crates/holofs-model/src/manifest.rs).
-- The state of a cursor is the part of the buffer that is not read yet, `buf[pos..]`; a reader takes
-- it and returns its value with what is left, or an error.
use holofs.Prelude.{
  ℕ, zero, suc, List, [], ◌∷◌, length, get_or, ltb, if◌then◌else◌, take as list_take,
  drop as list_drop,
}
use holofs.Codec.Io.{ErrorKind, Result, ok, err, unexpected_eof, map_ok}
use holofs.Codec.Bytes.{from_be_bytes}

abbrev pub Reader {ℓ} : Type ℓ → Type ℓ
Reader A = List ℕ → Result (A × List ℕ)

module _ {ℓ} {A : Type ℓ} where
  unfoldable pub pure : A → Reader A
  pure a bs = ok (a, bs)

  unfoldable pub fail : ErrorKind → Reader A
  fail e bs = err e

  -- A checked conversion of bytes that were read.
  unfoldable pub lift : Result A → Reader A
  lift (ok a) bs = ok (a, bs)
  lift (err e) bs = err e

module _ {ℓ κ} {A : Type ℓ} {B : Type κ} where
  -- The `?` operator: an error ends the read.
  abbrev pub continue : Result (A × List ℕ) → (A → Reader B) → Result (B × List ℕ)
  continue (ok (a, rest)) f = f a rest
  continue (err e) f = err e

  infixl 10 ◌>>=◌
  unfoldable pub ◌>>=◌ : Reader A → (A → Reader B) → Reader B
  ◌>>=◌ p f bs = continue (p bs) f

unfoldable pub take : ℕ → Reader (List ℕ)
take n bs = if ltb (length bs) n then err unexpected_eof else ok (list_take n bs, list_drop n bs)

unfoldable pub u8 : Reader ℕ
u8 = do b ← take 1; pure (get_or b 0 0)

unfoldable pub u16 : Reader ℕ
u16 = do b ← take 2; pure (from_be_bytes b)

unfoldable pub u32 : Reader ℕ
u32 = do b ← take 4; pure (from_be_bytes b)

unfoldable pub u64 : Reader ℕ
u64 = do b ← take 8; pure (from_be_bytes b)

-- `for _ in 0..n { v.push(p(c)?) }`
unfoldable pub repeat {ℓ} : {A : Type ℓ} → ℕ → Reader A → Reader (List A)
repeat zero p = pure []
repeat (suc n) p = do x ← p; xs ← repeat n p; pure (x ∷ xs)

-- `decode(buf)`: a reader run on a whole buffer; what it leaves unread is ignored.
unfoldable pub run {ℓ} : {A : Type ℓ} → Reader A → List ℕ → Result A
run p buf = map_ok (λ r. r.0) (p buf)
