-- ===== src/Rlnc/Chunks.antt =====
-- The chunks that crates/holofs-core/src/rlnc.rs cuts are the bytes again when they are put together.
use native.Mathlib.Nat.{suc-mul}
use holofs.Prelude.{
  ℕ, zero, suc, ◌+◌, ◌*◌, ◌≡◌, refl, sym, ap, ◌∙◌, List, [], ◌∷◌, ◌++◌, length, length-drop, take,
  drop, take-append-drop, arith,
}
use holofs.Rlnc.Encode.{chunk}
use holofs.Rlnc.Assembled.{chunks}

drop-nil : (n : ℕ) → ◌≡◌ {A = List ℕ} (drop n []) []
drop-nil zero = refl
drop-nil (suc n) = refl

drop-drop : (m n : ℕ) (xs : List ℕ) → drop n (drop m xs) ≡ drop (m + n) xs
drop-drop zero n xs = let z : n ≡ 0 + n = omega arith in ap (λ t. drop t xs) z
drop-drop (suc m) n [] = drop-nil n ∙ sym (drop-nil (suc m + n))
drop-drop (suc m) n (x ∷ xs) =
    let z : suc (m + n) ≡ suc m + n = omega arith in drop-drop m n xs ∙ ap (λ t. drop t (x ∷ xs)) z

nil_of_length : (xs : List ℕ) → length xs ≡ 0 → xs ≡ []
nil_of_length [] h = refl
nil_of_length (x ∷ xs) h = absurd (omega arith)

chunks-drop :
    (padded : List ℕ) (sl i n : ℕ)
    → length (drop (i * sl) padded) ≡ n * sl
    → chunks padded sl i n ≡ drop (i * sl) padded
unfolding chunks chunk
chunks-drop padded sl i zero h = sym (nil_of_length (drop (i * sl) padded) (omega arith))
chunks-drop padded sl i (suc n) h =
    let next : i * sl + sl ≡ (i + 1) * sl = omega (arith, suc-mul i sl) in
    let rest = drop-drop (i * sl) sl padded ∙ ap (λ t. drop t padded) next in
    let len = ap length rest in
    ap (λ t. take sl (drop (i * sl) padded) ++ t)
      (chunks-drop padded sl (i + 1) n
          (omega (arith, len, length-drop sl (drop (i * sl) padded), suc-mul n sl))
        ∙ sym rest)
    ∙ take-append-drop sl (drop (i * sl) padded)

-- The `k` chunks of `k * sl` bytes are those bytes.
pub chunks-all :
    (padded : List ℕ) (sl k : ℕ) → length padded ≡ k * sl → chunks padded sl 0 k ≡ padded
chunks-all padded sl k h =
    let z : 0 * sl ≡ 0 = omega arith in
    let start : drop (0 * sl) padded ≡ padded = ap (λ t. drop t padded) z in
    chunks-drop padded sl 0 k (ap length start ∙ h) ∙ start
