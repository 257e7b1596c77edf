-- ===== src/Merkle/Binding.antt =====
-- The root of crates/holofs-core/src/merkle.rs binds the leaves.
use holofs.Prelude.{
  ℕ, zero, suc, ◌+◌, ◌/◌, ◌≤◌, ◌≡◌, ◌≢◌, ◌⊎◌, inl, inr, refl, sym, ap, ap₂, ◌∙◌, subst, List, [],
  ◌∷◌, ◌++◌, length, In, In-left, In-right, All, list_eq, list_eq_iff, Bool-cases, arith,
}
use holofs.Sha256.{new, update, sha256}
use holofs.Sha256.Digest.{finalize-bytes}
use holofs.Merkle.{Hash, tag_merkle, hash_pair, next_level, climb, merkle_root}

length-next_level : (xs : List Hash) → length (next_level xs) ≡ (length xs + 1) / 2
unfolding next_level
length-next_level [] = omega arith
length-next_level (a ∷ []) = omega arith
length-next_level (a ∷ b ∷ xs) = omega (arith, length-next_level xs)

-- More fuel than leaves changes nothing.
climb-fuel : (m n : ℕ) (xs : List Hash) → length xs ≤ m → length xs ≤ n → climb m xs ≡ climb n xs
unfolding climb
climb-fuel m n [] hm hn = refl
climb-fuel m n (a ∷ []) hm hn = refl
climb-fuel zero n (a ∷ b ∷ xs) hm hn = absurd (omega arith)
climb-fuel (suc m) zero (a ∷ b ∷ xs) hm hn = absurd (omega arith)
climb-fuel (suc m) (suc n) (a ∷ b ∷ xs) hm hn =
    let len = length-next_level (a ∷ b ∷ xs) in
    climb-fuel m n (next_level (a ∷ b ∷ xs)) (omega arith) (omega arith)

-- The loop over the levels ends with its test: as long as there are two hashes or more, the root is that
-- of the next level, which has half as many, rounded up.
pub merkle_root-next_level :
    (leaves : List Hash)
    → 2 ≤ length leaves
    → (merkle_root leaves ≡ merkle_root (next_level leaves))
      × (length (next_level leaves) ≡ (length leaves + 1) / 2)
unfolding merkle_root climb
merkle_root-next_level [] h = absurd (omega arith)
merkle_root-next_level (a ∷ []) h = absurd (omega arith)
merkle_root-next_level (a ∷ b ∷ rest) h =
    let len = length-next_level (a ∷ b ∷ rest) in
    let next = next_level (a ∷ b ∷ rest) in
    (climb-fuel (suc (length rest)) (length next) next (omega arith) (omega arith), len)

abbrev pub Pair : Type 0
Pair = Hash × Hash

-- The pairs of hashes that are hashed for one level.
unfoldable pub level_pairs : List Hash → List Pair
level_pairs [] = []
level_pairs (a ∷ []) = (a, a) ∷ []
level_pairs (a ∷ b ∷ rest) = (a, b) ∷ level_pairs rest

-- All pairs of hashes that are hashed on the way to the root, in `n` levels at most.
unfoldable pub hashed : ℕ → List Hash → List Pair
hashed n [] = []
hashed n (root ∷ []) = []
hashed zero (a ∷ b ∷ rest) = []
hashed (suc n) (a ∷ b ∷ rest) = level_pairs (a ∷ b ∷ rest) ++ hashed n (next_level (a ∷ b ∷ rest))

-- The bytes that are hashed for a pair.
abbrev pub pair_message : Pair → List ℕ
pair_message p = tag_merkle ++ (p.0 ++ p.1)

-- A collision of SHA-256: two different messages with one hash, each made of a pair of one of the lists.
abbrev pub Clash : List Pair → List Pair → Type 0
Clash ps qs =
    (p : Pair) × (q : Pair) × In p ps
    × In q qs
    × (pair_message p ≢ pair_message q)
    × (sha256 (pair_message p) ≡ sha256 (pair_message q))

-- The hashes have 32 bytes.
abbrev pub AreHashes : List Hash → Type 0
AreHashes hs = All (λ h. length h ≡ 32) hs

length-hash_pair : (a b : Hash) → length (hash_pair a b) ≡ 32
unfolding hash_pair sha256
length-hash_pair a b = (finalize-bytes (update new (tag_merkle ++ (a ++ b)))).0

next_level-AreHashes : (xs : List Hash) → AreHashes (next_level xs)
unfolding next_level
next_level-AreHashes [] = tt
next_level-AreHashes (a ∷ []) = (length-hash_pair a a, tt)
next_level-AreHashes (a ∷ b ∷ xs) = (length-hash_pair a b, next_level-AreHashes xs)

Clash-left : (ps qs rs ss : List Pair) → Clash ps qs → Clash (ps ++ rs) (qs ++ ss)
Clash-left ps qs rs ss (p, q, hp, hq, ne, e) = (p, q, In-left p ps rs hp, In-left q qs ss hq, ne, e)

Clash-right : (ps qs rs ss : List Pair) → Clash rs ss → Clash (ps ++ rs) (qs ++ ss)
Clash-right ps qs rs ss (p, q, hp, hq, ne, e) =
    (p, q, In-right p ps rs hp, In-right q qs ss hq, ne, e)

same_or_apart : (xs ys : List ℕ) → (xs ≡ ys) ⊎ (xs ≢ ys)
same_or_apart xs ys = elim (Bool-cases (list_eq xs ys)) [
  | inl t ↦ inl ((list_eq_iff xs ys).0 t)
  | inr f ↦ inr (λ e. let t = (list_eq_iff xs ys).1 e in cc)
]

heads : {A : Type 0} {x y : A} {xs ys : List A} → x ∷ xs ≡ y ∷ ys → (x ≡ y) × (xs ≡ ys)
heads e = (cc, cc)

append_cancel :
    (xs ys us vs : List ℕ) → length xs ≡ length ys → xs ++ us ≡ ys ++ vs → (xs ≡ ys) × (us ≡ vs)
append_cancel [] [] us vs h e = (refl, e)
append_cancel [] (y ∷ ys) us vs h e = absurd (omega arith)
append_cancel (x ∷ xs) [] us vs h e = absurd (omega arith)
append_cancel (x ∷ xs) (y ∷ ys) us vs h e =
    let (first, rest) = heads e in
    let (more, last) = append_cancel xs ys us vs (omega arith) rest in
    (ap₂ (λ a t. a ∷ t) first more, last)

-- Two pairs with one hash are the same, or their messages collide.
pair-Binds :
    (a b c d : Hash)
    → length a ≡ length c
    → hash_pair a b ≡ hash_pair c d
    → ((a ≡ c) × (b ≡ d))
      ⊎ ((pair_message (a, b) ≢ pair_message (c, d))
          × (sha256 (pair_message (a, b)) ≡ sha256 (pair_message (c, d))))
unfolding hash_pair
pair-Binds a b c d h e = elim (same_or_apart (pair_message (a, b)) (pair_message (c, d))) [
  | inl same ↦
      let (_, tails) = append_cancel tag_merkle tag_merkle (a ++ b) (c ++ d) refl same in
      inl (append_cancel a c b d h tails)
  | inr apart ↦ inr (apart, e)
]

level-Binds :
    (xs ys : List Hash)
    → AreHashes xs
    → AreHashes ys
    → length xs ≡ length ys
    → next_level xs ≡ next_level ys
    → (xs ≡ ys) ⊎ Clash (level_pairs xs) (level_pairs ys)
unfolding next_level level_pairs
level-Binds [] [] hx hy h e = inl refl
level-Binds [] (c ∷ ys) hx hy h e = absurd (omega arith)
level-Binds (a ∷ xs) [] hx hy h e = absurd (omega arith)
level-Binds (a ∷ []) (c ∷ d ∷ ys) hx hy h e = absurd (omega arith)
level-Binds (a ∷ b ∷ xs) (c ∷ []) hx hy h e = absurd (omega arith)
level-Binds (a ∷ []) (c ∷ []) hx hy h e = elim (pair-Binds a a c c (hx.0 ∙ sym hy.0) (heads e).0) [
  | inl same ↦ inl (ap (λ t. t ∷ []) same.0)
  | inr clash ↦ inr ((a, a), (c, c), inl refl, inl refl, clash.0, clash.1)
]
level-Binds (a ∷ b ∷ xs) (c ∷ d ∷ ys) hx hy h e =
    elim (pair-Binds a b c d (hx.0 ∙ sym hy.0) (heads e).0) [
      | inl same ↦ elim (level-Binds xs ys hx.1.1 hy.1.1 (omega arith) (heads e).1) [
        | inl rest ↦ inl (ap₂ (λ t l. t ∷ l) same.0 (ap₂ (λ t l. t ∷ l) same.1 rest))
        | inr clash ↦ inr (Clash-right ((a, b) ∷ []) ((c, d) ∷ []) _ _ clash)
      ]
      | inr clash ↦ inr ((a, b), (c, d), inl refl, inl refl, clash.0, clash.1)
    ]

climb-Binds :
    (n : ℕ) (xs ys : List Hash)
    → AreHashes xs
    → AreHashes ys
    → length xs ≡ length ys
    → length xs ≤ n
    → climb n xs ≡ climb n ys
    → (xs ≡ ys) ⊎ Clash (hashed n xs) (hashed n ys)
unfolding climb hashed
climb-Binds n [] [] hx hy h b e = inl refl
climb-Binds n [] (c ∷ ys) hx hy h b e = absurd (omega arith)
climb-Binds n (a ∷ xs) [] hx hy h b e = absurd (omega arith)
climb-Binds n (a ∷ []) (c ∷ []) hx hy h b e = inl (ap (λ t. t ∷ []) e)
climb-Binds n (a ∷ []) (c ∷ d ∷ ys) hx hy h b e = absurd (omega arith)
climb-Binds n (a ∷ b ∷ xs) (c ∷ []) hx hy h le e = absurd (omega arith)
climb-Binds zero (a ∷ b ∷ xs) (c ∷ d ∷ ys) hx hy h le e = absurd (omega arith)
climb-Binds (suc n) (a ∷ b ∷ xs) (c ∷ d ∷ ys) hx hy h le e =
    let us = a ∷ b ∷ xs in
    let vs = c ∷ d ∷ ys in
    let lu = length-next_level us in
    let lv = length-next_level vs in
    elim (climb-Binds n (next_level us) (next_level vs) (next_level-AreHashes us)
      (next_level-AreHashes vs) (omega arith) (omega arith) e) [
        | inl same ↦ elim (level-Binds us vs hx hy h same) [
          | inl done ↦ inl done
          | inr clash ↦ inr (Clash-left _ _ _ _ clash)
        ]
        | inr clash ↦ inr (Clash-right (level_pairs us) (level_pairs vs) _ _ clash)
      ]

-- Two lists of as many leaves, of 32 bytes each, that have the same root are the same list, unless SHA-256 has
-- a collision: two different messages with one hash, each the tag and a pair of hashes that were hashed on the
-- way to one of the two roots. (Lists of different lengths may have one root, since the last hash of an odd
-- level is repeated.)
pub merkle_root-binds :
    (xs ys : List Hash)
    → AreHashes xs
    → AreHashes ys
    → length xs ≡ length ys
    → merkle_root xs ≡ merkle_root ys
    → (xs ≡ ys) ⊎ Clash (hashed (length xs) xs) (hashed (length ys) ys)
unfolding merkle_root
merkle_root-binds xs ys hx hy h e =
    let fuel = climb-fuel (length ys) (length xs) ys (omega arith) (omega arith) in
    elim (climb-Binds (length xs) xs ys hx hy h (omega arith) (e ∙ fuel)) [
      | inl same ↦ inl same
      | inr clash ↦ inr (subst (λ m. Clash (hashed (length xs) xs) (hashed m ys)) h clash)
    ]
