-- ===== src/Sha256/Digest.antt =====
-- The hashes of crates/holofs-core/src/hash.rs are 32 bytes.
use holofs.Prelude.{
  ℕ, suc, ◌+◌, ◌*◌, ◌<◌, ◌%◌, ◌^◌, ◌≡◌, refl, ap, subst, ◌∙◌, List, [], ◌∷◌, All, All-append,
  length, length-append, flat_map, arith,
}
use mathlib.Core.List.{foldl}
use native.Mathlib.Nat.{pow-suc, mul_assoc}
use holofs.Codec.Bytes.{
  IsByte, shift_in, to_be_bytes, from_be_bytes, length-to_be_bytes, to_be_bytes-IsByte,
}
use holofs.Sha256.{Sha256, copy_at, clear_to, mark, finalize}
use holofs.Sha256.Compress.{process_block}

words-bytes :
    (ws : List ℕ)
    → (length (flat_map (to_be_bytes 4) ws) ≡ 4 * length ws)
      × All IsByte (flat_map (to_be_bytes 4) ws)
words-bytes [] = (omega arith, tt)
words-bytes (w ∷ ws) =
    let (len, bytes) = words-bytes ws in
    (
      omega (
        arith,
        length-append (to_be_bytes 4 w) (flat_map (to_be_bytes 4) ws),
        length-to_be_bytes 4 w,
      ),
      All-append IsByte (to_be_bytes 4 w) (flat_map (to_be_bytes 4) ws) (to_be_bytes-IsByte 4 w)
          bytes,
    )

eight : (h block : List ℕ) → 4 * length (process_block h block) ≡ 32
unfolding process_block
eight h block = refl

-- A hash has 32 bytes, each below 256, whatever the state of the hasher.
pub finalize-bytes : (s : Sha256) → (length (finalize s) ≡ 32) × All IsByte (finalize s)
unfolding finalize
finalize-bytes s =
    let bit_len = s.total_len * 8 % 2 ^ 64 in
    let marked = mark s in
    let block = copy_at 56 (to_be_bytes 8 bit_len) (clear_to marked.buf_len 56 marked.buf) in
    let (len, bytes) = words-bytes (process_block marked.h block) in
    (len ∙ eight marked.h block, bytes)

from_be-bound :
    (bs : List ℕ) (acc k : ℕ)
    → All IsByte bs
    → acc < k
    → foldl shift_in acc bs < k * 256 ^ length bs
from_be-bound [] acc k h lt = omega arith
from_be-bound (b ∷ bs) acc k h lt =
    let rest = from_be-bound bs (acc * 256 + b) (k * 256) h.1 (omega arith) in
    let next : 256 * 256 ^ length bs ≡ 256 ^ suc (length bs) =
      omega (arith, pow-suc 256 (length bs)) in
    let e : k * 256 * 256 ^ length bs ≡ k * 256 ^ suc (length bs) =
      mul_assoc k 256 (256 ^ length bs) ∙ ap (λ t. k * t) next in
    subst (λ t. foldl shift_in (acc * 256 + b) bs < t) e rest

-- A number of `w` bytes is below 256 ^ w.
pub from_be_bytes-bound : (bs : List ℕ) → All IsByte bs → from_be_bytes bs < 256 ^ length bs
unfolding from_be_bytes
from_be_bytes-bound bs h = omega (arith, from_be-bound bs 0 1 h (omega arith))
