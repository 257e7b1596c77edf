-- ===== src/CatalogPath/Ancestors.antt =====
-- `ancestors` lists the proper prefixes of a path that end before a separator, the shortest first.
use holofs.Prelude.{
  ℕ, zero, suc, ◌+◌, ◌<◌, ◌≡◌, ◌↔◌, refl, sym, ap, ap₂, ◌∙◌, subst, Bool-cases, inl, inr, false,
  List, [], ◌∷◌, ◌++◌, arith, Option, none, some, In, length, take, append_assoc, append-nil,
  length-append, take-append, drop-append, ◌==◌, if◌then◌else◌, ==_iff,
}
use mathlib.Core.Option
use holofs.CatalogPath.{ok, slash, find, validate, at_separator, ancestors_from, ancestors}
use holofs.CatalogPath.Validity.{validate_iff}
use holofs.CatalogPath.Family.{IsGood-parts}

-- The reference: walk the bytes once, with those already passed.
prefixes : List ℕ → List ℕ → List (List ℕ)
prefixes passed [] = []
prefixes passed (x ∷ xs) =
    let rest = prefixes (passed ++ x ∷ []) xs in if x == slash then passed ∷ rest else rest

-- What the first separator splits off.
abbrev Found : List ℕ → List ℕ → Option ℕ → Type 0
Found passed xs none = prefixes passed xs ≡ []
Found passed xs (some rel) =
    (pre : List ℕ) × (post : List ℕ) × (xs ≡ pre ++ slash ∷ post)
    × (length pre ≡ rel)
    × (prefixes passed xs ≡ (passed ++ pre) ∷ prefixes (passed ++ pre ++ slash ∷ []) post)

Found-suc :
    (passed : List ℕ) (x : ℕ) (xs : List ℕ) (o : Option ℕ)
    → (x == slash) ≡ false
    → Found (passed ++ x ∷ []) xs o
    → Found passed (x ∷ xs) (Option.map suc o)
unfolding prefixes
Found-suc passed x xs none e h = rw e h
Found-suc passed x xs (some rel) e (pre, post, eq, len, pr) = (
  x ∷ pre,
  post,
  ap (λ t. x ∷ t) eq,
  ap suc len,
  rw e (
      subst (λ t. prefixes (passed ++ x ∷ []) xs ≡ t ∷ prefixes (t ++ slash ∷ []) post)
        (append_assoc passed (x ∷ []) pre) pr),
)

find-Found : (passed xs : List ℕ) → Found passed xs (find slash xs)
unfolding find prefixes
find-Found passed [] = refl
find-Found passed (x ∷ xs) = elim (Bool-cases (x == slash)) [
  | inl here ↦ rw here (
    [],
    xs,
    ap (λ t. t ∷ xs) ((==_iff x slash).0 here),
    refl,
    rw (append-nil passed, (==_iff x slash).0 here) refl,
  )
  | inr other ↦
      rw other (Found-suc passed x xs (find slash xs) other (find-Found (passed ++ x ∷ []) xs))
]

module _ (fuel : ℕ) (passed xs : List ℕ)
    (later : (pre post : List ℕ)
      → xs ≡ pre ++ slash ∷ post
      → ancestors_from fuel
          ((passed ++ pre ++ slash ∷ []) ++ post)
          (length (passed ++ pre ++ slash ∷ []))
        ≡ prefixes (passed ++ pre ++ slash ∷ []) post) where
  next_separator :
      (o : Option ℕ)
      → Found passed xs o
      → at_separator (passed ++ xs) (length passed) o (ancestors_from fuel (passed ++ xs))
        ≡ prefixes passed xs
  next_separator none f = sym f
  next_separator (some rel) (pre, post, eq, len, pr) =
      let front = passed ++ pre in
      let whole : passed ++ xs ≡ front ++ slash ∷ post =
        ap (λ t. passed ++ t) eq ∙ sym (append_assoc passed pre (slash ∷ post)) in
      let cut : length passed + rel ≡ length front = omega (arith, len, length-append passed pre) in
      let start : length passed + rel + 1 ≡ length (front ++ slash ∷ []) =
        omega (arith, cut, length-append front (slash ∷ [])) in
      let taken : take (length passed + rel) (passed ++ xs) ≡ front =
        ap₂ take cut whole ∙ take-append front (slash ∷ post) in
      let rest : ancestors_from fuel (passed ++ xs) (length passed + rel + 1)
          ≡ prefixes (front ++ slash ∷ []) post =
        ap₂ (ancestors_from fuel) (whole ∙ sym (append_assoc front (slash ∷ []) post)) start
        ∙ later pre post eq in
      ap₂ ◌∷◌ taken rest ∙ sym pr

ancestors_from-prefixes :
    (fuel : ℕ) (passed xs : List ℕ)
    → length xs < fuel
    → ancestors_from fuel (passed ++ xs) (length passed) ≡ prefixes passed xs
unfolding ancestors_from
ancestors_from-prefixes zero passed xs h = absurd (omega arith)
ancestors_from-prefixes (suc fuel) passed xs h = rw (drop-append passed xs) (
    next_separator fuel passed xs
      (λ pre post eq.
        ancestors_from-prefixes fuel (passed ++ pre ++ slash ∷ []) post
          (omega (arith, ap length eq, length-append pre (slash ∷ post))))
      (find slash xs) (find-Found passed xs))

ancestors-prefixes : (path : List ℕ) → ancestors path ≡ prefixes [] path
unfolding ancestors
ancestors-prefixes path = ancestors_from-prefixes (length path + 1) [] path (omega arith)

-- An element of the walk is what was passed with a part that a separator follows.
abbrev Cut : List ℕ → List ℕ → List ℕ → Type 0
Cut passed xs p =
    (mid : List ℕ) × (rest : List ℕ) × (p ≡ passed ++ mid) × (xs ≡ mid ++ slash ∷ rest)

Cut-suc :
    (passed : List ℕ) (x : ℕ) (xs p : List ℕ) → Cut (passed ++ x ∷ []) xs p → Cut passed (x ∷ xs) p
Cut-suc passed x xs p (mid, rest, e, f) =
    (x ∷ mid, rest, e ∙ append_assoc passed (x ∷ []) mid, ap (λ t. x ∷ t) f)

In-prefixes : (passed xs p : List ℕ) → In p (prefixes passed xs) → Cut passed xs p
unfolding prefixes
In-prefixes passed [] p h = absurd h
In-prefixes passed (x ∷ xs) p h = elim (Bool-cases (x == slash)) [
  | inl here ↦
      let h' : In p (passed ∷ prefixes (passed ++ x ∷ []) xs) = rw here at h in
      elim h' [
        | inl e ↦
            ([], xs, sym e ∙ sym (append-nil passed), ap (λ t. t ∷ xs) ((==_iff x slash).0 here))
        | inr later ↦ Cut-suc passed x xs p (In-prefixes (passed ++ x ∷ []) xs p later)
      ]
  | inr other ↦ Cut-suc passed x xs p (In-prefixes (passed ++ x ∷ []) xs p (rw other at h))
]

prefixes-In :
    (passed mid rest : List ℕ) → In (passed ++ mid) (prefixes passed (mid ++ slash ∷ rest))
unfolding prefixes
prefixes-In passed [] rest = inl (sym (append-nil passed))
prefixes-In passed (x ∷ mid) rest =
    let later =
      subst (λ t. In t (prefixes (passed ++ x ∷ []) (mid ++ slash ∷ rest)))
        (append_assoc passed (x ∷ []) mid) (prefixes-In (passed ++ x ∷ []) mid rest) in
    elim (Bool-cases (x == slash)) [ inl here ↦ rw here (inr later) | inr other ↦ rw other later ]

-- The ancestors of a path are exactly the parts of it that a separator follows.
pub In-ancestors_iff :
    (path p : List ℕ) → In p (ancestors path) ↔ ((rest : List ℕ) × (path ≡ p ++ slash ∷ rest))
In-ancestors_iff path p = (
  λ h.
      let (mid, rest, e, f) = In-prefixes [] path p (rw (ancestors-prefixes path) at h) in
      (rest, f ∙ ap (λ t. t ++ slash ∷ rest) (sym e)),
  λ (rest, e). rw (ancestors-prefixes path) (rw e (prefixes-In [] p rest)),
)

-- Every ancestor of a valid path is a valid path.
pub ancestors-valid :
    (path p : List ℕ) → validate path ≡ ok path → In p (ancestors path) → validate p ≡ ok p
ancestors-valid path p v h =
    let (rest, e) = (In-ancestors_iff path p).0 h in
    (validate_iff p).1 (IsGood-parts path p rest e v).0
