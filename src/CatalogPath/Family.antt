-- ===== src/CatalogPath/Family.antt =====
-- `parent`, `basename` and `join` belong together.
use mathlib.Core.Option
use holofs.Prelude.{
  ℕ, ◌≡◌, ◌≢◌, refl, sym, subst, ◌∙◌, List, [], ◌∷◌, ◌++◌, Option, none, some, some_cancel, All,
  All-append_left, All-append_right,
}
use holofs.CatalogPath.{ok, slash, split, rsplit_once, validate, parent, basename, join, name_or}
use holofs.CatalogPath.Split.{
  LastSeparator, rsplit_once-LastSeparator, split-append, split-no_separator,
}
use holofs.CatalogPath.Validity.{IsGood, validate_iff}

module _ (path p : List ℕ) where
  parent_case :
      (o : Option (List ℕ × List ℕ))
      → LastSeparator slash path o
      → Option.map (λ r. r.0) o ≡ some p
      → (path ≡ p ++ slash ∷ name_or path o) × All (λ x. x ≢ slash) (name_or path o)
  parent_case none ls e = cc
  parent_case (some (before, after)) ls e =
      (subst (λ q. path ≡ q ++ slash ∷ after) (some_cancel e) ls.0, ls.1)

  parent-some :
      parent path ≡ some p
      → (path ≡ p ++ slash ∷ basename path) × All (λ x. x ≢ slash) (basename path)
  unfolding parent basename
  parent-some e = parent_case (rsplit_once slash path) (rsplit_once-LastSeparator slash path) e

pub IsGood-parts :
    (path p name : List ℕ)
    → path ≡ p ++ slash ∷ name
    → validate path ≡ ok path
    → All IsGood (split slash p) × All IsGood (split slash name)
IsGood-parts path p name e v =
    let parts =
      subst (All IsGood) (split-append slash p name)
        (subst (λ t. All IsGood (split slash t)) e ((validate_iff path).0 v)) in
    (
      All-append_left IsGood (split slash p) (split slash name) parts,
      All-append_right IsGood (split slash p) (split slash name) parts,
    )

join-ne-nil : (p name : List ℕ) → p ≢ [] → join p name ≡ p ++ slash ∷ name
unfolding join
join-ne-nil [] name h = absurd (h refl)
join-ne-nil (x ∷ xs) name h = refl

valid-ne-nil : (p : List ℕ) → All IsGood (split slash p) → p ≢ []
valid-ne-nil [] g e = unfold split in g.0.named refl
valid-ne-nil (x ∷ xs) g e = cc

-- The parent of a valid path is a valid path, its base name is one good segment, and joining the two
-- gives the path back.
pub join-parent-basename :
    (path p : List ℕ)
    → validate path ≡ ok path
    → parent path ≡ some p
    → (validate p ≡ ok p) × IsGood (basename path) × (join p (basename path) ≡ path)
join-parent-basename path p v e =
    let s = parent-some path p e in
    let good = IsGood-parts path p (basename path) s.0 v in
    (
      (validate_iff p).1 good.0,
      (subst (All IsGood) (split-no_separator slash (basename path) s.1) good.1).0,
      join-ne-nil p (basename path) (valid-ne-nil p good.0) ∙ sym s.0,
    )
