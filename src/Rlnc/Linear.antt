-- ===== src/Rlnc/Linear.antt =====
-- Rows of crates/holofs-core/src/rlnc.rs as linear forms: the row operations of the elimination are linear.
use holofs.Prelude.{
  ℕ, zero, suc, ◌<◌, ◌≡◌, refl, sym, ap, ap₂, ◌∙◌, bit_xor, List, [], ◌∷◌, All, length, get_or,
  arith,
}
use holofs.Gf.{new, mul}
use holofs.Gf.Xor.{zero-xor, xor_comm, xor_assoc, xor_below}
use holofs.Gf.Field.{zero-mul, mul-zero, mul_comm, mul_assoc, mul-xor, mul-byte}
use holofs.Rlnc.Gauss.{scale_row, subtract_row}

abbrev pub IsByte : ℕ → Type 0
IsByte x = x < 256

-- The sum of the products of the entries with the values `ws` of the unknowns.
unfoldable pub dot : List ℕ → List ℕ → ℕ
dot [] ws = 0
dot (x ∷ xs) [] = 0
dot (x ∷ xs) (w ∷ ws) = bit_xor (mul new x w) (dot xs ws)

pub dot-IsByte : (xs ws : List ℕ) → All IsByte xs → All IsByte ws → IsByte (dot xs ws)
unfolding dot
dot-IsByte [] ws hx hw = omega arith
dot-IsByte (x ∷ xs) [] hx hw = omega arith
dot-IsByte (x ∷ xs) (w ∷ ws) hx hw =
    xor_below 8 (mul new x w) (dot xs ws) (mul-byte x w hx.0 hw.0) (dot-IsByte xs ws hx.1 hw.1)

xor-mul :
    (a b c : ℕ)
    → IsByte a
    → IsByte b
    → IsByte c
    → mul new (bit_xor a b) c ≡ bit_xor (mul new a c) (mul new b c)
xor-mul a b c ha hb hc =
    mul_comm (bit_xor a b) c ∙ mul-xor c a b hc ha hb ∙ ap₂ bit_xor (mul_comm c a) (mul_comm c b)

-- (x c) w = (x w) c
mul_right_comm :
    (x c w : ℕ) → IsByte x → IsByte c → IsByte w → mul new (mul new x c) w ≡ mul new (mul new x w) c
mul_right_comm x c w hx hc hw =
    mul_assoc x c w hx hc hw ∙ ap (mul new x) (mul_comm c w) ∙ sym (mul_assoc x w c hx hw hc)

pub dot-scale_row :
    (c : ℕ) (xs ws : List ℕ)
    → IsByte c
    → All IsByte xs
    → All IsByte ws
    → dot (scale_row new c xs) ws ≡ mul new (dot xs ws) c
unfolding dot scale_row
dot-scale_row c [] ws hc hx hw = sym (zero-mul c)
dot-scale_row c (x ∷ xs) [] hc hx hw = sym (zero-mul c)
dot-scale_row c (x ∷ xs) (w ∷ ws) hc hx hw =
    ap₂ bit_xor (mul_right_comm x c w hx.0 hc hw.0) (dot-scale_row c xs ws hc hx.1 hw.1)
    ∙ sym (
        xor-mul (mul new x w) (dot xs ws) c (mul-byte x w hx.0 hw.0) (dot-IsByte xs ws hx.1 hw.1)
          hc)

-- (a + b) + (c + d) = (a + c) + (b + d)
xor_middle :
    (a b c d : ℕ) → bit_xor (bit_xor a b) (bit_xor c d) ≡ bit_xor (bit_xor a c) (bit_xor b d)
xor_middle a b c d =
    xor_assoc a b (bit_xor c d)
    ∙ ap (bit_xor a)
        (sym (xor_assoc b c d) ∙ ap (λ t. bit_xor t d) (xor_comm b c) ∙ xor_assoc c b d)
    ∙ sym (xor_assoc a c (bit_xor b d))

pub dot-subtract_row :
    (f : ℕ) (xs ps ws : List ℕ)
    → length xs ≡ length ps
    → IsByte f
    → All IsByte xs
    → All IsByte ps
    → All IsByte ws
    → dot (subtract_row new f xs ps) ws ≡ bit_xor (dot xs ws) (mul new f (dot ps ws))
unfolding dot subtract_row
dot-subtract_row f [] [] ws e hf hx hp hw = rw (mul-zero f) (sym (zero-xor 0))
dot-subtract_row f [] (p ∷ ps) ws e hf hx hp hw = absurd (omega arith)
dot-subtract_row f (x ∷ xs) [] ws e hf hx hp hw = absurd (omega arith)
dot-subtract_row f (x ∷ xs) (p ∷ ps) [] e hf hx hp hw = rw (mul-zero f) (sym (zero-xor 0))
dot-subtract_row f (x ∷ xs) (p ∷ ps) (w ∷ ws) e hf hx hp hw =
    ap₂ bit_xor
      (xor-mul x (mul new f p) w hx.0 (mul-byte f p hf hp.0) hw.0
        ∙ ap (bit_xor (mul new x w)) (mul_assoc f p w hf hp.0 hw.0))
      (dot-subtract_row f xs ps ws (omega arith) hf hx.1 hp.1 hw.1)
    ∙ xor_middle (mul new x w) (mul new f (mul new p w)) (dot xs ws) (mul new f (dot ps ws))
    ∙ ap (bit_xor (bit_xor (mul new x w) (dot xs ws))) (
        sym (
          mul-xor f (mul new p w) (dot ps ws) hf (mul-byte p w hp.0 hw.0)
            (dot-IsByte ps ws hp.1 hw.1)))

-- The entries of a scaled row, and of a row less a multiple of the pivot row.
pub get_or-scale_row :
    (c : ℕ) (xs : List ℕ) (i : ℕ) → get_or (scale_row new c xs) i 0 ≡ mul new (get_or xs i 0) c
unfolding scale_row
get_or-scale_row c [] i = sym (zero-mul c)
get_or-scale_row c (x ∷ xs) zero = refl
get_or-scale_row c (x ∷ xs) (suc i) = get_or-scale_row c xs i

pub get_or-subtract_row :
    (f : ℕ) (xs ps : List ℕ) (i : ℕ)
    → length xs ≡ length ps
    → get_or (subtract_row new f xs ps) i 0 ≡ bit_xor (get_or xs i 0) (mul new f (get_or ps i 0))
unfolding subtract_row
get_or-subtract_row f [] [] i e = rw (mul-zero f) (sym (zero-xor 0))
get_or-subtract_row f [] (p ∷ ps) i e = absurd (omega arith)
get_or-subtract_row f (x ∷ xs) [] i e = absurd (omega arith)
get_or-subtract_row f (x ∷ xs) (p ∷ ps) zero e = refl
get_or-subtract_row f (x ∷ xs) (p ∷ ps) (suc i) e = get_or-subtract_row f xs ps i (omega arith)

-- Rows of the length `l` whose entries are bytes.
abbrev pub IsRow : ℕ → List ℕ → Type 0
IsRow l row = (length row ≡ l) × All IsByte row

pub scale_row-IsRow : (c l : ℕ) (xs : List ℕ) → IsByte c → IsRow l xs → IsRow l (scale_row new c xs)
unfolding scale_row
scale_row-IsRow c l [] hc h = h
scale_row-IsRow c zero (x ∷ xs) hc h = absurd (omega arith)
scale_row-IsRow c (suc l) (x ∷ xs) hc h =
    let (len, bytes) = scale_row-IsRow c l xs hc (omega arith, h.1.1) in
    (omega arith, (mul-byte x c h.1.0 hc, bytes))

pub subtract_row-IsRow :
    (f l : ℕ) (xs ps : List ℕ)
    → IsByte f
    → IsRow l xs
    → IsRow l ps
    → IsRow l (subtract_row new f xs ps)
unfolding subtract_row
subtract_row-IsRow f l [] ps hf h k = h
subtract_row-IsRow f l (x ∷ xs) [] hf h k = h
subtract_row-IsRow f zero (x ∷ xs) (p ∷ ps) hf h k = absurd (omega arith)
subtract_row-IsRow f (suc l) (x ∷ xs) (p ∷ ps) hf h k =
    let (len, bytes) = subtract_row-IsRow f l xs ps hf (omega arith, h.1.1) (omega arith, k.1.1) in
    (omega arith, (xor_below 8 x (mul new f p) h.1.0 (mul-byte f p hf k.1.0), bytes))

pub get_or-IsByte : (xs : List ℕ) (i : ℕ) → All IsByte xs → IsByte (get_or xs i 0)
get_or-IsByte [] i h = omega arith
get_or-IsByte (x ∷ xs) zero h = h.0
get_or-IsByte (x ∷ xs) (suc i) h = get_or-IsByte xs i h.1
