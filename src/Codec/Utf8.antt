-- ===== src/Codec/Utf8.antt =====
-- `String::from_utf8` and `String::from_utf8_lossy` of Rust's library, over bytes. A `String` is the
-- list of its bytes.
use holofs.Prelude.{
  ℕ, zero, suc, ◌≡◌, refl, Bool, true, false, ◌&&◌, List, [], ◌∷◌, ◌++◌, arith, ltb, leb, ◌==◌,
  if◌then◌else◌, Option, none, some, ==_iff, Bool-cases, inl, inr, ◌∙◌, append_assoc,
}
use holofs.Codec.Io.{Result, ok, err, invalid_data}

-- Within a character: how many bytes are still to come, and the range of the next.
pub record Expect : Type 0 where
  pub left : ℕ
  pub lo : ℕ
  pub hi : ℕ

abbrev pub boundary : Expect
boundary = record { left = 0; lo = 0; hi = 0 }

abbrev expect : ℕ → ℕ → ℕ → Option Expect
expect n lo hi = some (record { left = n; lo = lo; hi = hi })

-- What a first byte announces; `none` for a byte that begins no character.
unfoldable pub first_byte : ℕ → Option Expect
first_byte b =
    if ltb b 0x80
    then expect 0 0 0
    else if ltb b 0xc2
    then none
    else if ltb b 0xe0
    then expect 1 0x80 0xbf
    else if b == 0xe0
    then expect 2 0xa0 0xbf
    else if b == 0xed
    then expect 2 0x80 0x9f
    else if ltb b 0xf0
    then expect 2 0x80 0xbf
    else if b == 0xf0
    then expect 3 0x90 0xbf
    else if ltb b 0xf4
    then expect 3 0x80 0xbf
    else if b == 0xf4
    then expect 3 0x80 0x8f
    else none

-- What a further byte leaves to come; `none` where it does not fit.
unfoldable pub next_byte : ℕ → ℕ → ℕ → ℕ → Option Expect
unfolding first_byte
next_byte zero lo hi b = first_byte b
next_byte (suc n) lo hi b = if leb lo b && leb b hi then expect n 0x80 0xbf else none

abbrev fits : Option Expect → (Expect → Bool) → Bool
fits none rest = false
fits (some e) rest = rest e

-- The bytes are whole characters, the first of them begun as `e` says.
unfoldable pub valid_from : Expect → List ℕ → Bool
unfolding next_byte
valid_from e [] = e.left == 0
valid_from e (b ∷ bs) = fits (next_byte e.left e.lo e.hi b) (λ e'. valid_from e' bs)

unfoldable pub is_utf8 : List ℕ → Bool
unfolding valid_from
is_utf8 bs = valid_from boundary bs

unfoldable pub from_utf8 : List ℕ → Result (List ℕ)
from_utf8 bs = if is_utf8 bs then ok bs else err invalid_data

-- U+FFFD.
abbrev replacement : List ℕ
replacement = 0xef ∷ 0xbf ∷ 0xbd ∷ []

-- What a byte adds to the output, the bytes of a character held back, and what is to come.
record Feed : Type 0 where
  out : List ℕ
  held : List ℕ
  next : Expect

hold : List ℕ → ℕ → Expect → Feed
hold held b e =
    if e.left == 0
    then record { out = held ++ b ∷ []; held = []; next = e }
    else record { out = []; held = held ++ b ∷ []; next = e }

-- A byte as the first of a character.
start : ℕ → Feed
unfolding first_byte hold
start b = elim (first_byte b) [
  | none ↦ record { out = replacement; held = []; next = boundary }
  | some e ↦ hold [] b e
]

-- A byte that does not fit ends a bad character and is looked at again as a first byte.
feed_case : List ℕ → Expect → ℕ → Option Expect → Feed
unfolding hold start
feed_case held e b none =
    if e.left == 0
    then start b
    else record { out = replacement ++ (start b).out; held = (start b).held; next = (start b).next }
feed_case held e b (some e') = hold held b e'

feed : List ℕ → Expect → ℕ → Feed
unfolding feed_case
feed held e b = feed_case held e b (next_byte e.left e.lo e.hi b)

lossy_from : List ℕ → Expect → List ℕ → List ℕ
unfolding feed
lossy_from held e [] = if e.left == 0 then [] else replacement
lossy_from held e (b ∷ bs) = let f = feed held e b in f.out ++ lossy_from f.held f.next bs

unfoldable pub from_utf8_lossy : List ℕ → List ℕ
unfolding lossy_from
from_utf8_lossy bs = lossy_from [] boundary bs

abbrev Keeps : List ℕ → Type 0
Keeps bs =
    (held : List ℕ) (e : Expect)
    → (e.left ≡ 0 → held ≡ [])
    → valid_from e bs ≡ true
    → lossy_from held e bs ≡ held ++ bs

-- A byte that fits is held back or, with what was held, put out.
hold-Keeps :
    (held : List ℕ) (b : ℕ) (e : Expect) (bs : List ℕ)
    → Keeps bs
    → valid_from e bs ≡ true
    → (hold held b e).out ++ lossy_from (hold held b e).held (hold held b e).next bs
      ≡ held ++ b ∷ bs
unfolding hold
hold-Keeps held b e bs ih v = elim (Bool-cases (e.left == 0)) [
  | inl last ↦ rw last (rw (ih [] e (λ z. refl) v) (append_assoc held (b ∷ []) bs))
  | inr more ↦
      rw more (ih (held ++ b ∷ []) e (λ z. absurd (ground arith)) v ∙ append_assoc held (b ∷ []) bs)
]

lossy_from_valid : (bs : List ℕ) → Keeps bs
unfolding lossy_from valid_from
lossy_from_valid [] held e h v = rw v (rw (h ((==_iff e.left 0).0 v)))
lossy_from_valid (b ∷ bs) held e h v =
    go (next_byte e.left e.lo e.hi b) refl v (lossy_from_valid bs)
  where
    go :
        (o : Option Expect)
        → next_byte e.left e.lo e.hi b ≡ o
        → fits o (λ e'. valid_from e' bs) ≡ true
        → Keeps bs
        → lossy_from held e (b ∷ bs) ≡ held ++ b ∷ bs
    go none q w ih = cc
    go (some e') q w ih = unfold feed in rw (q, feed_case) (hold-Keeps held b e' bs ih w)

-- Valid text comes back unchanged.
pub from_utf8_lossy-valid : (bs : List ℕ) → is_utf8 bs ≡ true → from_utf8_lossy bs ≡ bs
unfolding is_utf8 from_utf8_lossy
from_utf8_lossy-valid bs v = lossy_from_valid bs [] boundary (λ e. refl) v

pub from_utf8-valid : (bs : List ℕ) → is_utf8 bs ≡ true → from_utf8 bs ≡ ok bs
unfolding from_utf8
from_utf8-valid bs v = rw v
