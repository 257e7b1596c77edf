-- ===== src/Client/GoodHashes.antt =====
-- The hashes in the manifest while crates/holofs-client/src/client.rs repairs a node.
use holofs.Prelude.{
  ℕ, zero, suc, ◌≡◌, ◌⊎◌, inl, inr, refl, sym, ap, subst, true, Bool-cases, Option-cases, List, [],
  ◌∷◌, ◌++◌, some, All, All-append, length, get_elem?, get_or, set, take, leb, list_eq,
  list_eq_sound,
}
use holofs.Shard.{Shard}
use holofs.Merkle.{Hash, shard_hash}
use holofs.Manifest.{Manifest}
use holofs.Client.Gather.{contains, expected_hashes}
use holofs.Client.Repair.{take_donors, push_hashes}

elem-set :
    {A : Type 0} (xs : List A) (i j : ℕ) (v y : A)
    → get_elem? (set xs i v) j ≡ some y
    → (get_elem? xs j ≡ some y) ⊎ ((i ≡ j) × (v ≡ y))
elem-set [] i j v y e = inl e
elem-set (x ∷ xs) zero zero v y e = inr (refl, cc)
elem-set (x ∷ xs) zero (suc j) v y e = inl e
elem-set (x ∷ xs) (suc i) zero v y e = inl e
elem-set (x ∷ xs) (suc i) (suc j) v y e = elim (elem-set xs i j v y e) [
  | inl old ↦ inl old
  | inr (a, b) ↦ inr (ap suc a, b)
]

get_or-cases :
    {A : Type 0} (xs : List A) (i : ℕ) (d : A)
    → (get_elem? xs i ≡ some (get_or xs i d)) ⊎ (get_or xs i d ≡ d)
get_or-cases [] i d = inr refl
get_or-cases (x ∷ xs) zero d = inl refl
get_or-cases (x ∷ xs) (suc i) d = get_or-cases xs i d

pub first_ones : (P : Shard → Type 0) (n : ℕ) (ss : List Shard) → All P ss → All P (take n ss)
first_ones P zero ss h = tt
first_ones P (suc n) [] h = tt
first_ones P (suc n) (s ∷ ss) h = (h.0, first_ones P n ss h.1)

module _ (P : ℕ → Shard → Type 0) where
  pub All-at : (ss : List Shard) → All (λ s. (j : ℕ) → P j s) ss → (j : ℕ) → All (P j) ss
  All-at [] h j = tt
  All-at (s ∷ ss) h j = (h.0 j, All-at ss h.1 j)

  pub at-All : (ss : List Shard) → ((j : ℕ) → All (P j) ss) → All (λ s. (j : ℕ) → P j s) ss
  at-All [] h = tt
  at-All (s ∷ ss) h = (λ j. (h j).0, at-All ss (λ j. (h j).1))

module _ (Good : ℕ → ℕ → Shard → Type 0) where
  -- The hash of a good shard.
  abbrev pub IsGoodHash : ℕ → ℕ → Hash → Type 0
  IsGoodHash channel layer h = (s : Shard) × Good channel layer s × (shard_hash s ≡ h)

  -- The manifest expects good shards only.
  abbrev pub AreGood : Manifest → Type 0
  AreGood m =
      (channel layer : ℕ) (hs : List Hash)
      → expected_hashes m channel layer ≡ some hs
      → All (IsGoodHash channel layer) hs

  -- A shard is good if it has the hash of a good one.
  abbrev pub IsClear : Shard → Type 0
  IsClear s =
      (channel layer : ℕ) (t : Shard)
      → Good channel layer t
      → shard_hash t ≡ shard_hash s
      → Good channel layer s

  contained :
      (channel layer : ℕ) (hs : List Hash) (h : Hash)
      → All (IsGoodHash channel layer) hs
      → contains hs h ≡ true
      → IsGoodHash channel layer h
  unfolding contains
  contained channel layer [] h all e = cc
  contained channel layer (g ∷ hs) h all e = elim (Bool-cases (list_eq g h)) [
    | inl t ↦ subst (IsGoodHash channel layer) (list_eq_sound g h t) all.0
    | inr f ↦ contained channel layer hs h all.1 (rw f at e)
  ]

  pub take_donors-Good :
      (channel layer d : ℕ) (hs : List Hash) (donors v : List Shard)
      → All (IsGoodHash channel layer) hs
      → All IsClear v
      → All (Good channel layer) donors
      → All (Good channel layer) (take_donors hs d donors v)
  unfolding take_donors
  take_donors-Good c l d hs donors [] good clear h = h
  take_donors-Good c l d hs donors (s ∷ v) good clear h =
      elim (Bool-cases (contains hs (shard_hash s))) [
        | inl t ↦
            let (u, gu, e) = contained c l hs (shard_hash s) good t in
            let all = All-append (Good c l) donors (s ∷ []) h (clear.0 c l u gu e, tt) in
            let rest = take_donors-Good c l d hs (donors ++ s ∷ []) v good clear.1 all in
            rw t (elim (Bool-cases (leb d (length (donors ++ s ∷ [])))) [
              | inl full ↦ rw full all
              | inr more ↦ rw more rest
            ])
        | inr f ↦
            let rest = take_donors-Good c l d hs donors v good clear.1 h in
            rw f (elim (Bool-cases (leb d (length donors))) [
              | inl full ↦ rw full h
              | inr more ↦ rw more rest
            ])
      ]

  old_hashes :
      (m : Manifest) (channel layer : ℕ)
      → AreGood m
      → All (IsGoodHash channel layer) (get_or (get_or m.shard_hashes channel []) layer [])
  unfolding expected_hashes
  old_hashes m c l good = elim (get_or-cases (get_or m.shard_hashes c []) l []) [
    | inr nothing ↦ subst (All (IsGoodHash c l)) (sym nothing) tt
    | inl there ↦ elim (get_or-cases m.shard_hashes c []) [
      | inl at ↦ good c l _ (rw (at, expected_hashes) there)
      | inr empty ↦
          let bad =
            subst
              (λ (x : List (List Hash)).
                get_elem? x l ≡ some (get_or (get_or m.shard_hashes c []) l []))
              empty there in
          cc
    ]
  ]

  pub push_hashes-AreGood :
      (m : Manifest) (channel layer : ℕ) (hs : List Hash)
      → AreGood m
      → All (IsGoodHash channel layer) hs
      → AreGood (push_hashes m channel layer hs)
  unfolding expected_hashes push_hashes
  push_hashes-AreGood m c l hs good new c' l' hs' e =
      let per = get_or m.shard_hashes c [] in
      let old = get_or per l [] in
      let changed = set m.shard_hashes c (set per l (old ++ hs)) in
      let kept = All-append (IsGoodHash c l) old hs (old_hashes m c l good) new in
      elim (Option-cases (get_elem? changed c')) [
        | inl out ↦ let bad = rw (out, expected_hashes) at e in cc
        | inr (per', at) ↦
            let e' : get_elem? per' l' ≡ some hs' = rw (at, expected_hashes) at e in
            elim (elem-set m.shard_hashes c c' (set per l (old ++ hs)) per' at) [
              | inl same ↦ good c' l' hs' (rw (same, expected_hashes) e')
              | inr (one, now) ↦
                  let e2 = subst (λ x. get_elem? x l' ≡ some hs') (sym now) e' in
                  elim (elem-set per l l' (old ++ hs) hs' e2) [
                    | inr (two, whole) ↦
                        subst (λ (x : ℕ × ℕ × List Hash). All (IsGoodHash x.0 x.1) x.2)
                          (λ i. (one i, two i, whole i)) kept
                    | inl older ↦ elim (get_or-cases m.shard_hashes c []) [
                      | inl there ↦
                          let there' =
                            subst (λ x. get_elem? m.shard_hashes x ≡ some per) one there in
                          good c' l' hs' (rw (there', expected_hashes) older)
                      | inr empty ↦
                          let bad =
                            subst (λ (x : List (List Hash)). get_elem? x l' ≡ some hs') empty
                              older in
                          cc
                    ]
                  ]
            ]
      ]
