-- ===== src/CatalogPath/Validity.antt =====
-- What `validate` accepts: the paths whose segments are all good.
use holofs.Prelude.{
  ℕ, suc, Option-cases, ◌≤◌, ◌≡◌, ◌≢◌, ◌↔◌, refl, true, List, [], ◌∷◌, ◌++◌, arith, none, All,
  All-append, list_eq, list_eq_iff, length, ge→ltb, cons_ne_nil, Bool-cases, inl, inr, ◌==◌,
}
use holofs.CatalogPath.{
  ok, max_segment, slash, dot, dot_dot, starts_with, ends_with, split, cons_head, segment_error,
  check_segments, validate, join,
}
use holofs.CatalogPath.Split.{split-append, split-ne-nil}

-- A segment is a name of 1 to `max_segment` bytes that is neither "." nor "..".
pub record IsGood (seg : List ℕ) : Type 0 where
  pub named : seg ≢ []
  pub no_dot : seg ≢ dot
  pub no_dot_dot : seg ≢ dot_dot
  pub short : length seg ≤ max_segment

segment_error-good : (seg : List ℕ) → IsGood seg → segment_error seg ≡ none
unfolding segment_error
segment_error-good [] h = absurd (h.named refl)
segment_error-good (c ∷ cs) h = elim (Bool-cases (list_eq (c ∷ cs) dot)) [
  | inl e ↦ absurd (h.no_dot ((list_eq_iff (c ∷ cs) dot).0 e))
  | inr a ↦ elim (Bool-cases (list_eq (c ∷ cs) dot_dot)) [
    | inl e ↦ absurd (h.no_dot_dot ((list_eq_iff (c ∷ cs) dot_dot).0 e))
    | inr b ↦ rw a (rw b (rw (ge→ltb max_segment (suc (length cs)) h.short)))
  ]
]

IsGood-segment_error : (seg : List ℕ) → segment_error seg ≡ none → IsGood seg
unfolding segment_error
IsGood-segment_error [] e = cc
IsGood-segment_error (c ∷ cs) e = record {
  named = cons_ne_nil c cs;
  no_dot = λ d. ground (arith, (list_eq_iff (c ∷ cs) dot).1 d);
  no_dot_dot = λ d. ground (arith, (list_eq_iff (c ∷ cs) dot_dot).1 d);
  short = ground arith;
}

check_segments-good :
    (path : List ℕ) (segs : List (List ℕ)) → All IsGood segs → check_segments path segs ≡ ok path
unfolding check_segments
check_segments-good path [] h = refl
check_segments-good path (seg ∷ segs) h =
    ground (arith, segment_error-good seg h.0, check_segments-good path segs h.1)

IsGood-check_segments :
    (path q : List ℕ) (segs : List (List ℕ)) → check_segments path segs ≡ ok q → All IsGood segs
unfolding check_segments
IsGood-check_segments path q [] h = tt
IsGood-check_segments path q (seg ∷ segs) h = elim (Option-cases (segment_error seg)) [
  | inl e ↦ (IsGood-segment_error seg e, IsGood-check_segments path q segs (rw e at h))
  | inr (k, e) ↦ cc (rw e at h)
]

-- The last of some segments is empty.
abbrev EndsEmpty : List (List ℕ) → Type 0
EndsEmpty [] = ⊥
EndsEmpty (s ∷ []) = s ≡ []
EndsEmpty (s ∷ t ∷ ts) = EndsEmpty (t ∷ ts)

abbrev tail : List (List ℕ) → List (List ℕ)
tail [] = []
tail (s ∷ ss) = ss

EndsEmpty-tail : (ss : List (List ℕ)) → EndsEmpty (tail ss) → EndsEmpty ss
EndsEmpty-tail [] h = h
EndsEmpty-tail (s ∷ []) h = absurd h
EndsEmpty-tail (s ∷ t ∷ ts) h = h

EndsEmpty-bad : (ss : List (List ℕ)) → EndsEmpty ss → ¬ All IsGood ss
EndsEmpty-bad [] h g = h
EndsEmpty-bad (s ∷ []) h g = g.0.named h
EndsEmpty-bad (s ∷ t ∷ ts) h g = EndsEmpty-bad (t ∷ ts) h g.1

tail-cons_head : (x : ℕ) (ss : List (List ℕ)) → ss ≢ [] → tail (cons_head x ss) ≡ tail ss
tail-cons_head x [] h = absurd (h refl)
tail-cons_head x (s ∷ ss) h = refl

ends_with-EndsEmpty : (xs : List ℕ) → ends_with slash xs ≡ true → EndsEmpty (tail (split slash xs))
unfolding ends_with split
ends_with-EndsEmpty [] h = cc
ends_with-EndsEmpty (x ∷ []) h = rw h refl
ends_with-EndsEmpty (x ∷ y ∷ ys) h = elim (Bool-cases (x == slash)) [
  | inl here ↦ rw here (EndsEmpty-tail (split slash (y ∷ ys)) (ends_with-EndsEmpty (y ∷ ys) h))
  | inr other ↦ rw other (
      rw (tail-cons_head x (split slash (y ∷ ys)) (split-ne-nil slash (y ∷ ys)))
        (ends_with-EndsEmpty (y ∷ ys) h))
]

starts_with-bad : (xs : List ℕ) → starts_with slash xs ≡ true → ¬ All IsGood (split slash xs)
unfolding starts_with split
starts_with-bad [] h g = cc
starts_with-bad (x ∷ xs) h g =
    let g' : All IsGood ([] ∷ split slash xs) = rw h at g in g'.0.named refl

validate-good : (path : List ℕ) → All IsGood (split slash path) → validate path ≡ ok path
unfolding validate
validate-good [] g = absurd (unfold split in g.0.named refl)
validate-good (x ∷ xs) g = elim (Bool-cases (starts_with slash (x ∷ xs))) [
  | inl e ↦ absurd (starts_with-bad (x ∷ xs) e g)
  | inr a ↦ elim (Bool-cases (ends_with slash (x ∷ xs))) [
    | inl e ↦
        let ends = EndsEmpty-tail (split slash (x ∷ xs)) (ends_with-EndsEmpty (x ∷ xs) e) in
        absurd (EndsEmpty-bad (split slash (x ∷ xs)) ends g)
    | inr b ↦ rw a (rw b (check_segments-good (x ∷ xs) (split slash (x ∷ xs)) g))
  ]
]

IsGood-validate : (path q : List ℕ) → validate path ≡ ok q → All IsGood (split slash path)
unfolding validate
IsGood-validate [] q h = cc
IsGood-validate (x ∷ xs) q h = elim (Bool-cases (starts_with slash (x ∷ xs))) [
  | inl e ↦ cc (rw e at h)
  | inr a ↦ elim (Bool-cases (ends_with slash (x ∷ xs))) [
    | inl e ↦ cc (rw (a, e) at h)
    | inr b ↦ IsGood-check_segments (x ∷ xs) q (split slash (x ∷ xs)) (rw (a, b) at h)
  ]
]

-- `validate` accepts a path, unchanged, exactly if each segment between separators is a name of 1 to
-- `max_segment` bytes other than "." and "..".
pub validate_iff : (path : List ℕ) → (validate path ≡ ok path) ↔ All IsGood (split slash path)
validate_iff path = (IsGood-validate path path, validate-good path)

-- Joining two valid paths gives a valid path.
pub validate-join :
    (a b : List ℕ) → validate a ≡ ok a → validate b ≡ ok b → validate (join a b) ≡ ok (join a b)
unfolding join
validate-join [] b ha hb = hb
validate-join (x ∷ xs) b ha hb = validate-good (x ∷ xs ++ slash ∷ b) (
    rw (split-append slash (x ∷ xs) b) (
      All-append IsGood (split slash (x ∷ xs)) (split slash b) (IsGood-validate (x ∷ xs) _ ha)
        (IsGood-validate b b hb)))
