-- ===== src/CatalogPath/Split.antt =====
-- Splitting at a separator: what joins the pieces again, and what a split of a longer text is.
use holofs.Prelude.{
  ℕ, ◌≡◌, ◌≢◌, refl, ap, All, List, [], ◌∷◌, ◌++◌, arith, Option, none, some, ==_iff, Bool-cases,
  inl, inr, ◌==◌,
}
use holofs.CatalogPath.{cons_head, extend, split, rsplit_once}

cons_head-append :
    (x : ℕ) (ss ts : List (List ℕ)) → ss ≢ [] → cons_head x (ss ++ ts) ≡ cons_head x ss ++ ts
cons_head-append x [] ts h = absurd (h refl)
cons_head-append x (s ∷ ss) ts h = refl

cons_head-ne-nil : (x : ℕ) (ss : List (List ℕ)) → cons_head x ss ≢ []
cons_head-ne-nil x [] e = cc
cons_head-ne-nil x (s ∷ ss) e = cc

pub split-ne-nil : (c : ℕ) (xs : List ℕ) → split c xs ≢ []
unfolding split
split-ne-nil c [] e = cc
split-ne-nil c (x ∷ xs) e = elim (Bool-cases (x == c)) [
  | inl here ↦ cc (rw here at e)
  | inr other ↦ cons_head-ne-nil x (split c xs) (rw other at e)
]

-- Splitting at a separator that is put between two texts splits both.
pub split-append : (c : ℕ) (xs ys : List ℕ) → split c (xs ++ c ∷ ys) ≡ split c xs ++ split c ys
unfolding split
split-append c [] ys = rw ((==_iff c c).1 refl)
split-append c (x ∷ xs) ys = elim (Bool-cases (x == c)) [
  | inl here ↦ rw here (rw (split-append c xs ys))
  | inr other ↦
      rw other (
        rw (split-append c xs ys)
          (cons_head-append x (split c xs) (split c ys) (split-ne-nil c xs)))
]

-- What a search for the last separator finds: no separator at all, or one with none behind it.
abbrev pub LastSeparator : ℕ → List ℕ → Option (List ℕ × List ℕ) → Type 0
LastSeparator c xs none = All (λ x. x ≢ c) xs
LastSeparator c xs (some (before, after)) = (xs ≡ before ++ c ∷ after) × All (λ x. x ≢ c) after

extend-LastSeparator :
    (c x : ℕ) (xs : List ℕ) (o : Option (List ℕ × List ℕ))
    → LastSeparator c xs o
    → LastSeparator c (x ∷ xs) (extend c x xs o)
extend-LastSeparator c x xs (some (before, after)) h = (ap (λ t. x ∷ t) h.0, h.1)
extend-LastSeparator c x xs none h = elim (Bool-cases (x == c)) [
  | inl here ↦ rw here (rw ((==_iff x c).0 here) (refl, h))
  | inr other ↦ rw other (λ e. ground arith, h)
]

pub rsplit_once-LastSeparator : (c : ℕ) (xs : List ℕ) → LastSeparator c xs (rsplit_once c xs)
unfolding rsplit_once
rsplit_once-LastSeparator c [] = tt
rsplit_once-LastSeparator c (x ∷ xs) =
    extend-LastSeparator c x xs (rsplit_once c xs) (rsplit_once-LastSeparator c xs)

pub split-no_separator : (c : ℕ) (xs : List ℕ) → All (λ x. x ≢ c) xs → split c xs ≡ xs ∷ []
unfolding split
split-no_separator c [] h = refl
split-no_separator c (x ∷ xs) h = ground (arith, split-no_separator c xs h.1, h.0)
