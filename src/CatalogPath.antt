-- ===== src/CatalogPath.antt =====
-- crates/holofs-model/src/path.rs: the syntax of catalog paths. A `str` is the list of its bytes; the
-- separator is ASCII, so bytes and characters split at the same places.
pub mod Split
pub mod Validity
pub mod Family
pub mod Ancestors
mod Tests
use mathlib.Core.Option
use holofs.Prelude.{
  ℕ, zero, suc, ◌+◌, Bool, true, false, List, [], ◌∷◌, ◌++◌, ◌==◌, ltb, list_eq, if◌then◌else◌,
  Option, none, some, length, take, drop,
}

pub data PathError : Type 0 where
  empty leading_slash trailing_slash empty_segment dot_segment dot_dot_segment : PathError
  segment_too_long : PathError

-- `Result<&str, PathError>`
pub data Validated : Type 0 where
  ok : List ℕ → Validated
  err : PathError → Validated

abbrev pub max_segment : ℕ
max_segment = 255

abbrev pub slash : ℕ
slash = b'/'

abbrev pub dot : List ℕ
dot = b'.' ∷ []

abbrev pub dot_dot : List ℕ
dot_dot = b'.' ∷ b'.' ∷ []

-- `str::is_empty`, `starts_with`, `ends_with`, `split`, `rsplit_once` and `find` of Rust's library.
abbrev pub is_empty {ℓ} : {A : Type ℓ} → List A → Bool
is_empty [] = true
is_empty (c ∷ cs) = false

unfoldable pub starts_with : ℕ → List ℕ → Bool
starts_with c [] = false
starts_with c (x ∷ xs) = x == c

unfoldable pub ends_with : ℕ → List ℕ → Bool
ends_with c [] = false
ends_with c (x ∷ []) = x == c
ends_with c (x ∷ y ∷ ys) = ends_with c (y ∷ ys)

abbrev pub cons_head : ℕ → List (List ℕ) → List (List ℕ)
cons_head c [] = (c ∷ []) ∷ []
cons_head c (s ∷ ss) = (c ∷ s) ∷ ss

unfoldable pub split : ℕ → List ℕ → List (List ℕ)
split c [] = [] ∷ []
split c (x ∷ xs) = let rest = split c xs in if x == c then [] ∷ rest else cons_head x rest

abbrev pub extend : ℕ → ℕ → List ℕ → Option (List ℕ × List ℕ) → Option (List ℕ × List ℕ)
extend c x xs (some (before, after)) = some (x ∷ before, after)
extend c x xs none = if x == c then some ([], xs) else none

unfoldable pub rsplit_once : ℕ → List ℕ → Option (List ℕ × List ℕ)
rsplit_once c [] = none
rsplit_once c (x ∷ xs) = extend c x xs (rsplit_once c xs)

unfoldable pub find : ℕ → List ℕ → Option ℕ
find c [] = none
find c (x ∷ xs) = let rest = Option.map suc (find c xs) in if x == c then some 0 else rest

-- The checks of one segment, in their order.
unfoldable pub segment_error : List ℕ → Option PathError
segment_error seg =
    if is_empty seg
    then some empty_segment
    else if list_eq seg dot
    then some dot_segment
    else if list_eq seg dot_dot
    then some dot_dot_segment
    else if ltb max_segment (length seg)
    then some segment_too_long
    else none

abbrev pub or_else : Option PathError → Validated → Validated
or_else (some e) rest = err e
or_else none rest = rest

unfoldable pub check_segments : List ℕ → List (List ℕ) → Validated
check_segments path [] = ok path
check_segments path (seg ∷ segs) = or_else (segment_error seg) (check_segments path segs)

unfoldable pub validate : List ℕ → Validated
validate path =
    if is_empty path
    then err empty
    else if starts_with slash path
    then err leading_slash
    else if ends_with slash path
    then err trailing_slash
    else check_segments path (split slash path)

unfoldable pub parent : List ℕ → Option (List ℕ)
parent path = Option.map (λ r. r.0) (rsplit_once slash path)

abbrev pub name_or : List ℕ → Option (List ℕ × List ℕ) → List ℕ
name_or path (some (p, n)) = n
name_or path none = path

unfoldable pub basename : List ℕ → List ℕ
basename path = name_or path (rsplit_once slash path)

unfoldable pub segments : List ℕ → List (List ℕ)
segments path = split slash path

unfoldable pub join : List ℕ → List ℕ → List ℕ
join parent child = if is_empty parent then child else parent ++ slash ∷ child

abbrev pub at_separator : List ℕ → ℕ → Option ℕ → (ℕ → List (List ℕ)) → List (List ℕ)
at_separator path start none rest = []
at_separator path start (some rel) rest = let cut = start + rel in take cut path ∷ rest (cut + 1)

-- The `while let` loop of `ancestors`, with `fuel` rounds at most.
unfoldable pub ancestors_from : ℕ → List ℕ → ℕ → List (List ℕ)
ancestors_from zero path start = []
ancestors_from (suc fuel) path start =
    at_separator path start (find slash (drop start path)) (ancestors_from fuel path)

-- A path has fewer separators than the rounds given.
unfoldable pub ancestors : List ℕ → List (List ℕ)
ancestors path = ancestors_from (length path + 1) path 0
