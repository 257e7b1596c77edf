-- ===== src/CatalogPath/Tests.antt =====
-- Tests and instances of the theorems on crates/holofs-model/src/path.rs.
use holofs.Prelude.{ℕ, ◌≡◌, ◌↔◌, refl, List, [], ◌∷◌, ◌++◌, some, In, All, list_eq}
use holofs.CatalogPath.{
  ok, err, PathError, slash, split, validate, parent, basename, join, ancestors, segment_error,
  check_segments, starts_with, ends_with, rsplit_once, find, ancestors_from,
}
use holofs.CatalogPath.Validity.{IsGood, validate_iff, validate-join}
use holofs.CatalogPath.Family.{join-parent-basename}
use holofs.CatalogPath.Ancestors.{In-ancestors_iff, ancestors-valid}

-- "a", "a/b", "c" and "a/b/c"
abbrev a : List ℕ
a = b'a' ∷ []

abbrev a_b : List ℕ
a_b = b'a' ∷ b'/' ∷ b'b' ∷ []

abbrev c : List ℕ
c = b'c' ∷ []

abbrev a_b_c : List ℕ
a_b_c = b'a' ∷ b'/' ∷ b'b' ∷ b'/' ∷ b'c' ∷ []

-- the rejections, "a//b" and "a/../b" among them
rejections :
    (validate [] ≡ err PathError.empty)
    × (validate (b'/' ∷ a) ≡ err PathError.leading_slash)
    × (validate (b'a' ∷ b'/' ∷ []) ≡ err PathError.trailing_slash)
    × (validate (b'a' ∷ b'/' ∷ b'/' ∷ b'b' ∷ []) ≡ err PathError.empty_segment)
    × (validate (b'a' ∷ b'/' ∷ b'.' ∷ b'/' ∷ b'b' ∷ []) ≡ err PathError.dot_segment)
    × (validate (b'a' ∷ b'/' ∷ b'.' ∷ b'.' ∷ b'/' ∷ b'b' ∷ []) ≡ err PathError.dot_dot_segment)
unfolding validate starts_with ends_with check_segments segment_error split list_eq
rejections = (refl, refl, refl, refl, refl, refl)

a_b_c-ancestors : ancestors a_b_c ≡ a ∷ a_b ∷ []
unfolding ancestors ancestors_from find
a_b_c-ancestors = refl

a_b-valid : validate a_b ≡ ok a_b
unfolding validate starts_with ends_with check_segments segment_error split list_eq
a_b-valid = refl

c-valid : validate c ≡ ok c
unfolding validate starts_with ends_with check_segments segment_error split list_eq
c-valid = refl

a_b_c-valid : validate a_b_c ≡ ok a_b_c
unfolding validate starts_with ends_with check_segments segment_error split list_eq
a_b_c-valid = refl

a_b_c-parent : parent a_b_c ≡ some a_b
unfolding parent rsplit_once
a_b_c-parent = refl

validate_iff_example : (validate a_b ≡ ok a_b) ↔ All IsGood (split slash a_b)
validate_iff_example = validate_iff a_b

validate-join_example : validate (join a_b c) ≡ ok (join a_b c)
validate-join_example = validate-join a_b c a_b-valid c-valid

join-parent-basename_example :
    (validate a_b ≡ ok a_b) × IsGood (basename a_b_c) × (join a_b (basename a_b_c) ≡ a_b_c)
join-parent-basename_example = join-parent-basename a_b_c a_b a_b_c-valid a_b_c-parent

In-ancestors_iff_example : In a (ancestors a_b_c) ↔ ((rest : List ℕ) × (a_b_c ≡ a ++ slash ∷ rest))
In-ancestors_iff_example = In-ancestors_iff a_b_c a

ancestors-valid_example : validate a_b ≡ ok a_b
ancestors-valid_example =
    ancestors-valid a_b_c a_b a_b_c-valid ((In-ancestors_iff a_b_c a_b).1 (c, refl))
