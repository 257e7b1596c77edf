-- ===== src/Placement/RoundRobin.antt =====
-- crates/holofs-model/src/placement.rs: the walk to the nearest live node, and where `place` puts a shard.
use holofs.Prelude.{
  ℕ, zero, suc, ◌+◌, ◌-◌, ◌%◌, ◌^◌, ◌≤◌, ◌<◌, ◌≡◌, ◌≢◌, inl, inr, refl, ap, ◌∙◌, subst, true, List,
  [], ◌∷◌, some, some_cancel, In, All, leb, ltb, bit_xor, ◌*◌, ◌==◌, if◌then◌else◌, arith,
  Bool-cases, ==_iff, ltb→lt, ltb-false,
}
use native.Mathlib.Nat.{mod-eq_of_lt, mod-eq-sub-mod, mod-lt}
use holofs.Placement.{
  Placement, round_robin, rendezvous, rendezvous_zone_aware, ShardKey, mix64, u64, rendezvous_hash,
  best_from, binary_search_ok, step_forward, start_position, round_robin_place, rendezvous_place,
  place,
}
use holofs.Placement.BinarySearch.{IsSorted, binary_search_ok_sound, binary_search_ok_complete}

step_forward-In :
    (live : List ℕ) (pos total off n node : ℕ)
    → step_forward live pos total off n ≡ some node
    → In node live
unfolding step_forward
step_forward-In live pos total off zero node e = cc
step_forward-In live pos total off (suc n) node e =
    elim (Bool-cases (binary_search_ok live ((pos + off) % total))) [
      | inl t ↦
          subst (λ k. In k live) (some_cancel (rw t at e))
            (binary_search_ok_sound live ((pos + off) % total) t)
      | inr f ↦ step_forward-In live pos total (off + 1) n node (rw f at e)
    ]

-- The walk passes the step at which the candidate is live.
step_forward-stops :
    (live : List ℕ) (pos total off n k : ℕ)
    → off ≤ k
    → k < off + n
    → binary_search_ok live ((pos + k) % total) ≡ true
    → (node : ℕ) × (step_forward live pos total off n ≡ some node)
unfolding step_forward
step_forward-stops live pos total off zero k lo hi e = absurd (omega arith)
step_forward-stops live pos total off (suc n) k lo hi e =
    elim (Bool-cases (binary_search_ok live ((pos + off) % total))) [
      | inl t ↦ ((pos + off) % total, rw t refl)
      | inr f ↦
          let apart : off ≢ k = λ same. let other = rw same at f in cc in
          let (node, at) =
            step_forward-stops live pos total (off + 1) n k (omega arith) (omega arith) e in
          (node, rw f at)
    ]

-- Every node number is some step away from any position.
step_to :
    (pos total node : ℕ)
    → pos < total
    → node < total
    → (k : ℕ) × (k < total) × ((pos + k) % total ≡ node)
step_to pos total node p n = elim (Bool-cases (ltb node pos)) [
  | inl t ↦ (
    total - (pos - node),
    let lt = ltb→lt node pos t in omega arith,
    let lt = ltb→lt node pos t in
        let wrap : pos + (total - (pos - node)) ≡ total + node = omega arith in
        let over : total ≤ total + node = omega arith in
        let back : total + node - total ≡ node = omega arith in
        ap (λ k. k % total) wrap ∙ mod-eq-sub-mod over ∙ ap (λ k. k % total) back ∙ mod-eq_of_lt n,
  )
  | inr f ↦ (
    node - pos,
    omega arith,
    let le = ltb-false node pos f in
        let sum : pos + (node - pos) ≡ node = omega arith in
        ap (λ k. k % total) sum ∙ mod-eq_of_lt n,
  )
]

round_robin_place-In :
    (key : ShardKey) (total : ℕ) (live : List ℕ) (node : ℕ)
    → round_robin_place key total live ≡ some node
    → In node live
unfolding round_robin_place
round_robin_place-In key total live node e = elim (Bool-cases (total == 0)) [
  | inl t ↦ let no = rw t at e in cc
  | inr f ↦ step_forward-In live (start_position key total) total 0 total node (rw f at e)
]

start_position-bound : (key : ShardKey) (total : ℕ) → 0 < total → start_position key total < total
unfolding start_position
start_position-bound key total pos =
    mod-lt
      (u64 (
        mix64 (bit_xor (bit_xor key.object_id (key.channel * 2 ^ 16)) (key.layer * 2 ^ 8))
        + key.shard_idx))
      pos

round_robin_place-total :
    (key : ShardKey) (total first : ℕ) (rest : List ℕ)
    → IsSorted (first ∷ rest)
    → first < total
    → (node : ℕ) × (round_robin_place key total (first ∷ rest) ≡ some node)
unfolding round_robin_place
round_robin_place-total key total first rest sorted b = elim (Bool-cases (total == 0)) [
  | inl t ↦ let no = (==_iff total 0).0 t in absurd (omega arith)
  | inr f ↦ rw f (
      let (k, lt, at) =
        step_to (start_position key total) total first
          (start_position-bound key total (omega arith)) b in
      step_forward-stops (first ∷ rest) (start_position key total) total 0 total k (omega arith)
        (omega arith) (rw at (binary_search_ok_complete (first ∷ rest) first sorted (inl refl))))
]

-- What holds of the first choice and of every node holds of the choice.
best_from-All :
    (P : ℕ → Type 0) (h : ℕ → ℕ) (ns : List ℕ) (b : ℕ × ℕ)
    → P b.1
    → All P ns
    → P (best_from h b ns).1
unfolding best_from
best_from-All P h [] b p all = p
best_from-All P h (n ∷ ns) b p all =
    best_from-All P h ns (if leb b.0 (h n) then (h n, n) else b)
      (elim (Bool-cases (leb b.0 (h n))) [ inl t ↦ rw t all.0 | inr f ↦ rw f p ]) all.1

All-In : (xs ys : List ℕ) → ((x : ℕ) → In x xs → In x ys) → All (λ x. In x ys) xs
All-In [] ys f = tt
All-In (x ∷ xs) ys f = (f x (inl refl), All-In xs ys (λ y h. f y (inr h)))

rendezvous_place-total :
    (key : ShardKey) (first : ℕ) (rest : List ℕ)
    → (node : ℕ) × (rendezvous_place key (first ∷ rest) ≡ some node) × In node (first ∷ rest)
unfolding rendezvous_place
rendezvous_place-total key first rest =
    let live = first ∷ rest in
    (
      (best_from (rendezvous_hash key) (0, first) live).1,
      refl,
      best_from-All (λ n. In n live) (rendezvous_hash key) live (0, first) (inl refl)
          (All-In live live (λ x h. h)),
    )

-- Placement is total and lands on a live node: on a non-empty, sorted set of live nodes that are
-- nodes of the cluster, `place` gives a node under each of the three schemes, and the node is live.
pub place-total :
    (scheme : Placement) (key : ShardKey) (total : ℕ) (live : List ℕ)
    → live ≢ []
    → IsSorted live
    → All (λ n. n < total) live
    → (node : ℕ) × (place scheme key total live ≡ some node) × In node live
unfolding place
place-total scheme key total [] some_live sorted inside = absurd (some_live refl)
place-total round_robin key total (first ∷ rest) some_live sorted inside =
    let (node, e) = round_robin_place-total key total first rest sorted inside.0 in
    (node, e, round_robin_place-In key total (first ∷ rest) node e)
place-total rendezvous key total (first ∷ rest) some_live sorted inside =
    rendezvous_place-total key first rest
place-total rendezvous_zone_aware key total (first ∷ rest) some_live sorted inside =
    rendezvous_place-total key first rest
