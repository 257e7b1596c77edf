-- ===== src/Wire/Frame/Accepts.antt =====
-- Which streams the reader of frames of crates/holofs-wire/src/wire.rs accepts, and which the writer makes.
use holofs.Prelude.{
  ℕ, ◌≤◌, ◌<◌, ◌^◌, ◌%◌, ◌++◌, ◌≡◌, ◌↔◌, refl, sym, ◌∙◌, ap, ap₂, subst, List, [], ◌∷◌, length, ltb,
  arith, if◌then◌else◌, append_assoc, All, All-append_left, Bool, true, false, ltb-false,
  length-take, take-append-drop, take as list_take, drop as list_drop,
}
use native.Mathlib.Nat.{mod-eq_of_lt}
use holofs.Codec.Io.{
  ErrorKind, invalid_input, Result, ok, err, ok_injective, invalid_data, unexpected_eof,
}
use holofs.Codec.Bytes.{IsByte, to_be_bytes, from_be_bytes}
use holofs.Codec.Cursor.{Reader, continue, pure, take, u32, fail, ◌>>=◌}
use holofs.Wire.Frame.{
  max_frame, write_frame, read_frame, frame, Small, Reads-frame, write_frame-ok,
}

-- `stream` starts with the length of `m` in four bytes and `m`, which is not too long, and goes on with `rest`.
pub record Framed (m rest stream : List ℕ) : Type 0 where
  pub small : length m ≤ max_frame
  pub layout : stream ≡ to_be_bytes 4 (length m) ++ (m ++ rest)

to_be_bytes-from_be_bytes :
    (a b c d : ℕ)
    → All IsByte (a ∷ b ∷ c ∷ d ∷ [])
    → to_be_bytes 4 (from_be_bytes (a ∷ b ∷ c ∷ d ∷ [])) ≡ a ∷ b ∷ c ∷ d ∷ []
unfolding to_be_bytes from_be_bytes
to_be_bytes-from_be_bytes a b c d h = grind arith

from_be_bytes-fits :
    (a b c d : ℕ) → All IsByte (a ∷ b ∷ c ∷ d ∷ []) → from_be_bytes (a ∷ b ∷ c ∷ d ∷ []) < 2 ^ 32
unfolding from_be_bytes
from_be_bytes-fits a b c d h = omega arith

module _ {ℓ κ} {A : Type ℓ} {B : Type κ} (f : A → Reader B) where
  continue_ok :
      (s : Result (A × List ℕ)) (r : B × List ℕ)
      → continue s f ≡ ok r
      → (a : A) × (tail : List ℕ) × (s ≡ ok (a, tail)) × (f a tail ≡ ok r)
  continue_ok (ok (a, tail)) r e = (a, tail, refl, e)
  continue_ok (err k) r e = absurd (cc)

  -- A reader of two steps that succeeds took both of them.
  bind_ok :
      (p : Reader A) (bs : List ℕ) (r : B × List ℕ)
      → (p >>= f) bs ≡ ok r
      → (a : A) × (tail : List ℕ) × (p bs ≡ ok (a, tail)) × (f a tail ≡ ok r)
  unfolding ◌>>=◌
  bind_ok p bs r e = continue_ok (p bs) r e

module _ {ℓ} {A : Type ℓ} (k : ErrorKind) where
  -- A guard that let a result through did not hold.
  guard_ok :
      (c : Bool) (s : Result A) (y : A) → (if c then err k else s) ≡ ok y → (c ≡ false) × (s ≡ ok y)
  guard_ok true s y e = absurd cc
  guard_ok false s y e = (refl, e)

  fail_ok :
      (c : Bool) (p : Reader A) (bs : List ℕ) (r : A × List ℕ)
      → (if c then fail k else p) bs ≡ ok r
      → (c ≡ false) × (p bs ≡ ok r)
  unfolding fail
  fail_ok true p bs r e = absurd cc
  fail_ok false p bs r e = (refl, e)

take_ok :
    (n : ℕ) (bs m rest : List ℕ) → take n bs ≡ ok (m, rest) → (length m ≡ n) × (bs ≡ m ++ rest)
unfolding take
take_ok n bs m rest e =
    let (long, same) =
      guard_ok unexpected_eof (ltb (length bs) n) (ok (list_take n bs, list_drop n bs)) (m, rest)
        e in
    let parts = ok_injective same in
    let first = ap (λ t. t.0) parts in
    let second = ap (λ t. t.1) parts in
    (
      rw (← first) (omega (arith, length-take n bs, ltb-false (length bs) n long)),
      rw (← first, ← second) (sym (take-append-drop n bs)),
    )

four_bytes :
    (bs : List ℕ)
    → length bs ≡ 4
    → All IsByte bs
    → (from_be_bytes bs < 2 ^ 32) × (to_be_bytes 4 (from_be_bytes bs) ≡ bs)
four_bytes (a ∷ b ∷ c ∷ d ∷ []) e h =
    (from_be_bytes-fits a b c d h, to_be_bytes-from_be_bytes a b c d h)
four_bytes _ e h = absurd (omega arith)

u32_ok :
    (bs tail : List ℕ) (len : ℕ)
    → All IsByte bs
    → u32 bs ≡ ok (len, tail)
    → (len < 2 ^ 32) × (bs ≡ to_be_bytes 4 len ++ tail)
unfolding u32 pure
u32_ok bs tail len h e =
    let (b, left, taken, read) = bind_ok _ (take 4) bs (len, tail) e in
    let (size, start) = take_ok 4 bs b left taken in
    let (low, bytes) =
      four_bytes b size (All-append_left IsByte b left (subst (All IsByte) start h)) in
    let parts = ok_injective read in
    (
      subst (λ x. x < 2 ^ 32) (ap (λ t. t.0) parts) low,
      start
          ∙ ap₂ (λ x t. x ++ t) (sym bytes ∙ ap (to_be_bytes 4) (ap (λ t. t.0) parts))
              (ap (λ t. t.1) parts),
    )

read_frame→Framed :
    (stream m rest : List ℕ)
    → All IsByte stream
    → read_frame stream ≡ ok (m, rest)
    → Framed m rest stream
unfolding read_frame
read_frame→Framed stream m rest h e =
    let (len, tail, header, body) = bind_ok _ u32 stream (m, rest) e in
    let (low, taken) = fail_ok invalid_data (ltb max_frame len) (take len) tail (m, rest) body in
    let (size, whole) = take_ok len tail m rest taken in
    let (fits, start) = u32_ok stream tail len h header in
    record {
      small = omega (arith, size, ltb-false max_frame len low);
      layout = rw size (start ∙ ap (λ t. to_be_bytes 4 len ++ t) whole);
    }

frame→Framed : (m rest stream : List ℕ) → Small m → stream ≡ frame m ++ rest → Framed m rest stream
unfolding frame
frame→Framed m rest stream small start = record {
  small = small;
  layout =
      start
      ∙ append_assoc (to_be_bytes 4 (length m % 2 ^ 32)) m rest
      ∙ ap (λ n. to_be_bytes 4 n ++ (m ++ rest)) (mod-eq_of_lt (omega (arith, small)));
}

Framed→frame : (m rest stream : List ℕ) → Framed m rest stream → stream ≡ frame m ++ rest
unfolding frame
Framed→frame m rest stream f =
    let fits : length m < 2 ^ 32 = omega (arith, f.small) in
    rw (mod-eq_of_lt fits) (f.layout ∙ sym (append_assoc (to_be_bytes 4 (length m)) m rest))

write_frame→Small : (m out : List ℕ) → write_frame [] m ≡ ok out → Small m
unfolding write_frame
write_frame→Small m out e =
    ltb-false max_frame (length m)
      (guard_ok invalid_input (ltb max_frame (length m)) (ok _) out e).0

-- For a stream of bytes: the reader accepts it with the message `m` and leaves `rest` exactly if it is the
-- length of `m`, at most `max_frame`, in four bytes, then `m`, then `rest`; and that is so exactly if the
-- writer makes a frame of `m` and the stream is this frame and then `rest`.
pub read_frame-write_frame_iff :
    (stream m rest : List ℕ)
    → All IsByte stream
    → ((read_frame stream ≡ ok (m, rest)) ↔ Framed m rest stream)
      × (((out : List ℕ) × (write_frame [] m ≡ ok out) × (stream ≡ out ++ rest))
          ↔ Framed m rest stream)
read_frame-write_frame_iff stream m rest h = (
  (
    read_frame→Framed stream m rest h,
    λ f. rw (Framed→frame m rest stream f) ((Reads-frame m f.small).at rest),
  ),
  (
    λ (out, made, start).
        let small = write_frame→Small m out made in
        let same = ok_injective (sym (write_frame-ok [] m small) ∙ made) in
        frame→Framed m rest stream small (start ∙ ap (λ t. t ++ rest) (sym same)),
    λ f. (frame m, write_frame-ok [] m f.small, Framed→frame m rest stream f),
  ),
)
