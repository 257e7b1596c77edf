-- ===== src/Codec/Reads.antt =====
-- `Reads p a bs`: whatever follows, `p` reads exactly the bytes `bs` and returns `a`.
use holofs.Prelude.{
  ℕ, ◌<◌, ◌%◌, ◌^◌, ◌≡◌, refl, ap, ◌∙◌, List, [], ◌∷◌, ◌++◌, arith, length, length-append,
  take-append, drop-append, append_assoc, append-nil, All, ge→ltb, flat_map,
}
use native.Mathlib.Nat.{mod-eq_of_lt}
use holofs.Codec.Io.{Result, ok, map_ok}
use holofs.Codec.Bytes.{from_be_bytes, to_be_bytes, length-to_be_bytes, from_be_bytes-to_be_bytes}
use holofs.Codec.Cursor.{Reader, continue, pure, lift, ◌>>=◌, take, u8, u16, u32, u64, repeat, run}

pub record Reads {ℓ} {A : Type ℓ} (p : Reader A) (a : A) (bs : List ℕ) : Type ℓ where
  pub at : (rest : List ℕ) → p (bs ++ rest) ≡ ok (a, rest)

module _ {ℓ} {A : Type ℓ} where
  pub Reads-pure : (a : A) → Reads (pure a) a []
  unfolding pure
  Reads-pure a = record { at = λ rest. refl }

  pub Reads-lift : (r : Result A) (a : A) → r ≡ ok a → Reads (lift r) a []
  Reads-lift r a e = rw e (unfold lift in record { at = λ rest. refl })

  pub Reads-run : {p : Reader A} {a : A} {bs : List ℕ} → Reads p a bs → run p bs ≡ ok a
  unfolding run map_ok
  Reads-run {bs = bs} r = rw (← append-nil bs) (rw (r.at []))

module _ {ℓ κ} {A : Type ℓ} {B : Type κ} where
  pub Reads-bind :
      {p : Reader A} (f : A → Reader B) {a : A} {b : B} {bs cs : List ℕ}
      → Reads p a bs
      → Reads (f a) b cs
      → Reads (p >>= f) b (bs ++ cs)
  unfolding ◌>>=◌
  Reads-bind f {bs = bs} {cs = cs} r s = record {
    at = λ rest.
        rw (append_assoc bs cs rest) (ap (λ t. continue t f) (r.at (cs ++ rest)) ∙ s.at rest);
  }

  -- The last step of a block.
  pub Reads-last :
      {p : Reader A} (f : A → Reader B) {a : A} {b : B} {bs : List ℕ}
      → Reads p a bs
      → Reads (f a) b []
      → Reads (p >>= f) b bs
  unfolding ◌>>=◌
  Reads-last f r s = record { at = λ rest. ap (λ t. continue t f) (r.at rest) ∙ s.at rest }

pub Reads-take : (n : ℕ) (bs : List ℕ) → length bs ≡ n → Reads (take n) bs bs
unfolding take
Reads-take n bs e = record {
  at = λ rest.
      rw (ge→ltb (length (bs ++ rest)) n (omega (arith, length-append bs rest)))
        (rw (← e) (rw (take-append bs rest, drop-append bs rest)));
}

module _ (w x : ℕ) (h : x < 256 ^ w) where
  Reads-be : Reads (take w >>= λ b. pure (from_be_bytes b)) x (to_be_bytes w x)
  Reads-be =
      Reads-last _ (Reads-take w (to_be_bytes w x) (length-to_be_bytes w x))
        (rw (from_be_bytes-to_be_bytes w x h) (Reads-pure x))

pub Reads-u8 : (x : ℕ) → Reads u8 x (x ∷ [])
unfolding u8
Reads-u8 x = Reads-last _ (Reads-take 1 (x ∷ []) refl) (Reads-pure x)

pub Reads-u16 : (x : ℕ) → x < 2 ^ 16 → Reads u16 x (to_be_bytes 2 x)
unfolding u16
Reads-u16 x h = Reads-be 2 x h

pub Reads-u32 : (x : ℕ) → x < 2 ^ 32 → Reads u32 x (to_be_bytes 4 x)
unfolding u32
Reads-u32 x h = Reads-be 4 x h

-- A length written with the cast `as u32`.
pub Reads-u32_cast : (x : ℕ) → x < 2 ^ 32 → Reads u32 x (to_be_bytes 4 (x % 2 ^ 32))
Reads-u32_cast x h = rw (mod-eq_of_lt h) (Reads-u32 x h)

pub Reads-u64 : (x : ℕ) → x < 2 ^ 64 → Reads u64 x (to_be_bytes 8 x)
unfolding u64
Reads-u64 x h = Reads-be 8 x h

module _ {ℓ} {A : Type ℓ} (p : Reader A) (write : A → List ℕ) (P : A → Type 0)
    (each : (a : A) → P a → Reads p a (write a)) where
  -- A counted loop reads what a loop over the elements wrote.
  pub Reads-repeat : (xs : List A) → All P xs → Reads (repeat (length xs) p) xs (flat_map write xs)
  unfolding repeat
  Reads-repeat [] h = Reads-pure []
  Reads-repeat (x ∷ xs) h =
      Reads-bind _ (each x h.0) (Reads-last _ (Reads-repeat xs h.1) (Reads-pure (x ∷ xs)))

  pub Reads-repeat_n :
      (n : ℕ) (xs : List A) → length xs ≡ n → All P xs → Reads (repeat n p) xs (flat_map write xs)
  Reads-repeat_n n xs e h = rw (← e) (Reads-repeat xs h)
