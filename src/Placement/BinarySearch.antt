-- ===== src/Placement/BinarySearch.antt =====
-- The binary search of crates/holofs-model/src/placement.rs: sound on any list, complete on a sorted one.
use holofs.Prelude.{
  ℕ, zero, suc, ◌+◌, ◌-◌, ◌/◌, ◌≤◌, ◌<◌, ◌≡◌, inl, inr, refl, subst, true, List, [], ◌∷◌, In, All,
  ltb, length, get_or, arith, Bool-cases, ==_iff, ltb→lt, ltb-false,
}
use holofs.Placement.{search_from, binary_search_ok}

get_or-In : (xs : List ℕ) (i : ℕ) → i < length xs → In (get_or xs i 0) xs
get_or-In [] i h = absurd (omega arith)
get_or-In (x ∷ xs) zero h = inl refl
get_or-In (x ∷ xs) (suc i) h = inr (get_or-In xs i (omega arith))

pub In-index : (xs : List ℕ) (x : ℕ) → In x xs → (i : ℕ) × (i < length xs) × (get_or xs i 0 ≡ x)
In-index [] x h = absurd h
In-index (y ∷ xs) x (inl e) = (0, omega arith, e)
In-index (y ∷ xs) x (inr h) = let (i, b, e) = In-index xs x h in (suc i, omega arith, e)

search_from-bound :
    (fuel : ℕ) (xs : List ℕ) (x base size : ℕ)
    → 0 < size
    → search_from fuel xs x base size < base + size
unfolding search_from
search_from-bound zero xs x base size pos = omega arith
search_from-bound (suc fuel) xs x base size pos =
    let half = size / 2 in
    elim (Bool-cases (ltb 1 size)) [
      | inr f ↦ rw f (omega arith)
      | inl t ↦
          let big = ltb→lt 1 size t in
          rw t (elim (Bool-cases (ltb x (get_or xs (base + half) 0))) [
            | inl s ↦ rw s (
                let ih = search_from-bound fuel xs x base (size - half) (omega arith) in
                omega arith)
            | inr s ↦ rw s (
                let ih = search_from-bound fuel xs x (base + half) (size - half) (omega arith) in
                omega arith)
          ])
    ]

-- Each element of a sorted list is at most the later ones.
abbrev pub IsSorted : List ℕ → Type 0
IsSorted xs = (i j : ℕ) → i ≤ j → j < length xs → get_or xs i 0 ≤ get_or xs j 0

below_mid :
    (xs : List ℕ) (x i mid : ℕ)
    → IsSorted xs
    → i < length xs
    → get_or xs i 0 ≡ x
    → x < get_or xs mid 0
    → i < mid
below_mid xs x i mid sorted b e lt = elim (Bool-cases (ltb i mid)) [
  | inl s ↦ ltb→lt i mid s
  | inr s ↦ let le = sorted mid i (ltb-false i mid s) b in absurd (omega arith)
]

at_mid :
    (xs : List ℕ) (x i mid : ℕ)
    → IsSorted xs
    → mid < length xs
    → get_or xs i 0 ≡ x
    → get_or xs mid 0 ≤ x
    → i ≤ mid
    → get_or xs mid 0 ≡ x
at_mid xs x i mid sorted b e le before = let le' = sorted i mid before b in omega arith

le-get_or : (x : ℕ) (xs : List ℕ) (i : ℕ) → All (λ y. x ≤ y) xs → i < length xs → x ≤ get_or xs i 0
le-get_or x [] i all b = absurd (omega arith)
le-get_or x (y ∷ xs) zero all b = all.0
le-get_or x (y ∷ xs) (suc i) all b = le-get_or x xs i all.1 (omega arith)

pub nil-IsSorted : IsSorted []
nil-IsSorted i j le b = absurd (omega arith)

pub cons-IsSorted : (x : ℕ) (xs : List ℕ) → All (λ y. x ≤ y) xs → IsSorted xs → IsSorted (x ∷ xs)
cons-IsSorted x xs all sorted zero zero le b = omega arith
cons-IsSorted x xs all sorted zero (suc j) le b = le-get_or x xs j all (omega arith)
cons-IsSorted x xs all sorted (suc i) zero le b = absurd (omega arith)
cons-IsSorted x xs all sorted (suc i) (suc j) le b = sorted i j (omega arith) (omega arith)

search_from-finds :
    (fuel : ℕ) (xs : List ℕ) (x base size i : ℕ)
    → IsSorted xs
    → size ≤ fuel
    → base ≤ i
    → i < base + size
    → base + size ≤ length xs
    → get_or xs i 0 ≡ x
    → get_or xs (search_from fuel xs x base size) 0 ≡ x
unfolding search_from
search_from-finds zero xs x base size i sorted enough lo hi top e = absurd (omega arith)
search_from-finds (suc fuel) xs x base size i sorted enough lo hi top e =
    let half = size / 2 in
    let mid = base + half in
    elim (Bool-cases (ltb 1 size)) [
      | inr f ↦ rw f (
          let le = ltb-false 1 size f in
          subst (λ k. get_or xs k 0 ≡ x) (let same : i ≡ base = omega arith in same) e)
      | inl t ↦
          let big = ltb→lt 1 size t in
          let low = search_from-finds fuel xs x base (size - half) i sorted (omega arith) lo in
          rw t (elim (Bool-cases (ltb x (get_or xs mid 0))) [
            | inl s ↦ rw s (
                let lt =
                  below_mid xs x i mid sorted (omega arith) e (ltb→lt x (get_or xs mid 0) s) in
                low (omega arith) (omega arith) e)
            | inr s ↦ rw s (elim (Bool-cases (ltb i mid)) [
              | inl before ↦
                  search_from-finds fuel xs x mid (size - half) mid sorted (omega arith)
                    (omega arith) (omega arith) (omega arith)
                    (at_mid xs x i mid sorted (omega arith) e (ltb-false x (get_or xs mid 0) s)
                      (let lt = ltb→lt i mid before in omega arith))
              | inr after ↦
                  search_from-finds fuel xs x mid (size - half) i sorted (omega arith)
                    (ltb-false i mid after) (omega arith) (omega arith) e
            ])
          ])
    ]

-- The binary search finds only what is in the list.
pub binary_search_ok_sound : (xs : List ℕ) (x : ℕ) → binary_search_ok xs x ≡ true → In x xs
unfolding binary_search_ok
binary_search_ok_sound [] x h = cc
binary_search_ok_sound (y ∷ ys) x h =
    let xs = y ∷ ys in
    let at = search_from (length xs) xs x 0 (length xs) in
    subst (λ z. In z xs) ((==_iff (get_or xs at 0) x).0 h)
      (get_or-In xs at
        (let b = search_from-bound (length xs) xs x 0 (length xs) (omega arith) in omega arith))

-- The binary search finds every element of a sorted list.
pub binary_search_ok_complete :
    (xs : List ℕ) (x : ℕ) → IsSorted xs → In x xs → binary_search_ok xs x ≡ true
unfolding binary_search_ok
binary_search_ok_complete [] x sorted h = absurd h
binary_search_ok_complete (y ∷ ys) x sorted h =
    let xs = y ∷ ys in
    let (i, b, e) = In-index xs x h in
    (==_iff (get_or xs (search_from (length xs) xs x 0 (length xs)) 0) x).1 (
      search_from-finds (length xs) xs x 0 (length xs) i sorted (omega arith) (omega arith)
        (omega arith) (omega arith) e)
