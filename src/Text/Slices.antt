-- ===== src/Text/Slices.antt =====
-- The split points of crates/holofs-codec/src/text_codec.rs cut a text into slices that make it up.
use holofs.Prelude.{
  ℕ, zero, suc, ◌+◌, ◌-◌, ◌*◌, ◌/◌, ◌≤◌, ◌≡◌, inl, inr, refl, sym, ap, ◌∙◌, subst, true, Bool-cases,
  List, [], ◌∷◌, ◌++◌, some, length, take, drop, take-append-drop, length-drop, leb, flat_map,
  arith,
}
use holofs.Rlnc.Encode.{default_k}
use holofs.Text.{is_continuation, to_boundary, split_point, splits_from, slices}

to_boundary-bounds :
    (rest : List ℕ) (s : ℕ) → (s ≤ to_boundary rest s) × (to_boundary rest s ≤ s + length rest)
unfolding to_boundary
to_boundary-bounds [] s = (omega arith, omega arith)
to_boundary-bounds (b ∷ rest) s =
    let ih = to_boundary-bounds rest (s + 1) in
    elim (Bool-cases (is_continuation b)) [
      | inl t ↦ rw t (omega (arith, ih.0), omega (arith, ih.1))
      | inr f ↦ rw f (omega arith, omega arith)
    ]

-- A later start ends no earlier.
to_boundary-drop :
    (rest : List ℕ) (s n : ℕ) → to_boundary rest s ≤ to_boundary (drop n rest) (s + n)
unfolding to_boundary
to_boundary-drop rest s zero =
    let at : s + 0 ≡ s = omega arith in
    subst (λ m. to_boundary rest s ≤ to_boundary rest m) (sym at) (omega arith)
to_boundary-drop [] s (suc n) = omega arith
to_boundary-drop (b ∷ rest) s (suc n) =
    let ih = to_boundary-drop rest (s + 1) n in
    let at : s + 1 + n ≡ s + suc n = omega arith in
    let low = (to_boundary-bounds (drop n rest) (s + suc n)).0 in
    elim (Bool-cases (is_continuation b)) [
      | inl t ↦ rw t (subst (λ m. to_boundary rest (s + 1) ≤ to_boundary (drop n rest) m) at ih)
      | inr f ↦ rw f (omega arith)
    ]

drop-nil : (n : ℕ) → ◌≡◌ {A = List ℕ} (drop n []) []
drop-nil zero = refl
drop-nil (suc n) = refl

drop-drop : (a b : ℕ) (xs : List ℕ) → drop a (drop b xs) ≡ drop (b + a) xs
drop-drop a zero xs = let at : a ≡ 0 + a = omega arith in ap (λ m. drop m xs) at
drop-drop a (suc b) [] = drop-nil a ∙ sym (drop-nil (suc b + a))
drop-drop a (suc b) (x ∷ xs) =
    let at : suc (b + a) ≡ suc b + a = omega arith in
    drop-drop a b xs ∙ ap (λ m. drop m (x ∷ xs)) at

from_start : (bytes : List ℕ) (s t : ℕ) → s ≤ t → drop t bytes ≡ drop (t - s) (drop s bytes)
from_start bytes s t h = ap (λ m. drop m bytes) (omega arith) ∙ sym (drop-drop (t - s) s bytes)

start_of : ℕ → ℕ → ℕ
start_of n i = i * n / default_k

start_of-monotone : (n i : ℕ) → start_of n i ≤ start_of n (i + 1)
unfolding start_of
start_of-monotone n i = let step : (i + 1) * n ≡ i * n + n = grind arith in omega arith

start_of-bound : (n i : ℕ) → i ≤ 16 → start_of n i ≤ n
unfolding start_of
start_of-bound n i h = let all : i * n ≤ 16 * n = grind arith in omega arith

split_point-monotone : (bytes : List ℕ) (i : ℕ) → split_point bytes i ≤ split_point bytes (i + 1)
unfolding split_point start_of
split_point-monotone bytes i =
    let s = start_of (length bytes) i in
    let t = start_of (length bytes) (i + 1) in
    let le = start_of-monotone (length bytes) i in
    let up = to_boundary-drop (drop s bytes) s (t - s) in
    let at : s + (t - s) ≡ t = omega arith in
    subst (λ (p : List ℕ × ℕ). to_boundary (drop s bytes) s ≤ to_boundary p.0 p.1)
      (λ j. (sym (from_start bytes s t le) j, at j)) up

split_point-bound : (bytes : List ℕ) (i : ℕ) → i ≤ 16 → split_point bytes i ≤ length bytes
unfolding split_point start_of
split_point-bound bytes i h =
    let s = start_of (length bytes) i in
    omega (
      arith,
      start_of-bound (length bytes) i h,
      to_boundary-bounds (drop s bytes) s,
      length-drop s bytes,
    )

abbrev pub joined : List (List ℕ) → List ℕ
joined cs = flat_map (λ c. c) cs

-- The slices between the split points make up the text.
module _ (bytes : List ℕ) where
  one_slice :
      (start end : ℕ) (ends : List ℕ) (cs : List (List ℕ))
      → start ≤ end
      → end ≤ length bytes
      → slices bytes end ends ≡ some cs
      → joined cs ≡ drop end bytes
      → let c = take (end - start) (drop start bytes) in
        (slices bytes start (end ∷ ends) ≡ some (c ∷ cs)) × (joined (c ∷ cs) ≡ drop start bytes)
  unfolding slices
  one_slice start end ends cs lo hi later whole =
      let a : leb start end ≡ true = ground arith in
      let b : leb end (length bytes) ≡ true = ground arith in
      let c = take (end - start) (drop start bytes) in
      (
        rw a (rw b (rw (later, slices) refl)),
        ap (λ t. c ++ t) (whole ∙ from_start bytes start end lo)
            ∙ take-append-drop (end - start) (drop start bytes),
      )

  nothing_left : (xs : List ℕ) → ◌≡◌ {A = List ℕ} [] (drop (length xs) xs)
  nothing_left [] = refl
  nothing_left (x ∷ xs) = nothing_left xs

  pub all_slices :
      (count i start : ℕ)
      → i + count ≤ 16
      → start ≤ split_point bytes i
      → (cs : List (List ℕ)) × (slices bytes start (splits_from bytes i count) ≡ some cs)
        × (joined cs ≡ drop start bytes)
        × (length cs ≡ count + 1)
  unfolding splits_from slices
  all_slices zero i start h lo =
      let hi = split_point-bound bytes i (omega arith) in
      let (e, whole) =
        one_slice start (length bytes) [] [] (omega arith) (omega arith) refl
          (nothing_left bytes) in
      (take (length bytes - start) (drop start bytes) ∷ [], e, whole, refl)
  all_slices (suc count) i start h lo =
      let hi = split_point-bound bytes i (omega arith) in
      let (cs, e, whole, len) =
        all_slices count (i + 1) (split_point bytes i) (omega arith)
          (split_point-monotone bytes i) in
      let (e', whole') =
        one_slice start (split_point bytes i) (splits_from bytes (i + 1) count) cs lo hi e whole in
      (take (split_point bytes i - start) (drop start bytes) ∷ cs, e', whole', omega arith)
