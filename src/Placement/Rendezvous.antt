-- ===== src/Placement/Rendezvous.antt =====
-- crates/holofs-model/src/placement.rs: the highest random weight, its choice and its stability.
use holofs.Prelude.{
  ℕ, ◌≤◌, ◌≡◌, ◌≢◌, ◌⊎◌, inl, inr, refl, sym, ap, ◌∙◌, subst, false, List, [], ◌∷◌, some,
  some_cancel, leb, ◌==◌, if◌then◌else◌, arith, Bool-cases, ==_iff, leb→le, leb-false, cons_ne_nil,
}
use holofs.Placement.{ShardKey, rendezvous_hash, best_from, rendezvous_place}

-- The live nodes without one of them.
unfoldable pub without : ℕ → List ℕ → List ℕ
without dead [] = []
without dead (n ∷ ns) = let rest = without dead ns in if n == dead then rest else n ∷ rest

-- How the search with all nodes and the search without `dead` stand after the same nodes: at the same
-- node, or the first at `dead` with a weight that the second does not pass.
abbrev Agree : ℕ → ℕ × ℕ → ℕ × ℕ → Type 0
Agree dead b c = (b ≡ c) ⊎ ((b.1 ≡ dead) × (c.0 ≤ b.0))

abbrev better : (ℕ → ℕ) → ℕ × ℕ → ℕ → ℕ × ℕ
better h b n = if leb b.0 (h n) then (h n, n) else b

ge_of_not_leb : (a b : ℕ) → leb a b ≡ false → b ≤ a
ge_of_not_leb a b f = let lt = leb-false a b f in omega arith

Agree-dead : (h : ℕ → ℕ) (dead : ℕ) (b c : ℕ × ℕ) → Agree dead b c → Agree dead (better h b dead) c
Agree-dead h dead (bh, bn) (ch, cn) a = elim (Bool-cases (leb bh (h dead))) [
  | inl t ↦ rw t (
      inr (
        refl,
        elim a [
          | inl e ↦ subst (λ k. k ≤ h dead) (ap (λ p. p.0) e) (leb→le bh (h dead) t)
          | inr (_, le) ↦ let le' = leb→le bh (h dead) t in omega arith
        ],
      ))
  | inr f ↦ rw f a
]

Agree-other :
    (h : ℕ → ℕ) (dead n : ℕ) (b c : ℕ × ℕ)
    → Agree dead b c
    → Agree dead (better h b n) (better h c n)
Agree-other h dead n b c (inl e) = inl (ap (λ p. better h p n) e)
Agree-other h dead n (bh, bn) (ch, cn) (inr (d, le)) = elim (Bool-cases (leb bh (h n))) [
  | inl t ↦ elim (Bool-cases (leb ch (h n))) [
    | inl s ↦ rw t (rw s (inl refl))
    | inr f ↦ ground arith
  ]
  | inr f ↦ elim (Bool-cases (leb ch (h n))) [
    | inl s ↦ rw f (rw s (inr (d, ge_of_not_leb bh (h n) f)))
    | inr g ↦ rw f (rw g (inr (d, le)))
  ]
]

best_from-without :
    (h : ℕ → ℕ) (dead : ℕ) (ns : List ℕ) (b c : ℕ × ℕ)
    → Agree dead b c
    → Agree dead (best_from h b ns) (best_from h c (without dead ns))
unfolding best_from without
best_from-without h dead [] b c a = a
best_from-without h dead (n ∷ ns) b c a = elim (Bool-cases (n == dead)) [
  | inl t ↦ rw t (
      best_from-without h dead ns (better h b n) c (
        subst (λ m. Agree dead (better h b m) c) (sym ((==_iff n dead).0 t))
          (Agree-dead h dead b c a)))
  | inr f ↦
      rw f (best_from-without h dead ns (better h b n) (better h c n) (Agree-other h dead n b c a))
]

-- After the whole search the node without `dead` is the node with it, when that one is not `dead`.
Agree-live : {dead : ℕ} {b c : ℕ × ℕ} → Agree dead b c → b.1 ≢ dead → c.1 ≡ b.1
Agree-live (inl e) live = sym (ap (λ p. p.1) e)
Agree-live (inr (d, _)) live = absurd (live d)

without_dead : (dead f : ℕ) (rest : List ℕ) → without dead (f ∷ rest) ≡ [] → f ≡ dead
unfolding without
without_dead dead f rest e = elim (Bool-cases (f == dead)) [
  | inl t ↦ (==_iff f dead).0 t
  | inr n ↦ absurd (
      cons_ne_nil f (without dead rest)
        (subst (λ b. (if b then without dead rest else f ∷ without dead rest) ≡ []) n e))
]

cons_head : {x y : ℕ} {xs ys : List ℕ} → x ∷ xs ≡ y ∷ ys → x ≡ y
cons_head e = cc

without_first :
    (dead f g : ℕ) (rest zs : List ℕ) → without dead (f ∷ rest) ≡ g ∷ zs → Agree dead (0, f) (0, g)
unfolding without
without_first dead f g rest zs e = elim (Bool-cases (f == dead)) [
  | inl t ↦ inr ((==_iff f dead).0 t, omega arith)
  | inr n ↦ inl (
      ap (λ k. (0, k))
        (cons_head
          (subst (λ b. (if b then without dead rest else f ∷ without dead rest) ≡ g ∷ zs) n e)))
]

List-cases : (xs : List ℕ) → (xs ≡ []) ⊎ ((y : ℕ) × (ys : List ℕ) × (xs ≡ y ∷ ys))
List-cases [] = inl refl
List-cases (x ∷ xs) = inr (x, xs, refl)

-- When rendezvous placement puts a shard on a node, and another node leaves the live set, the shard
-- stays where it is: for any key and any live set, the choice among the live nodes without `dead` is
-- the same node.
pub rendezvous-minimal_disturbance :
    (key : ShardKey) (live : List ℕ) (dead node : ℕ)
    → rendezvous_place key live ≡ some node
    → node ≢ dead
    → rendezvous_place key (without dead live) ≡ some node
unfolding rendezvous_place best_from
rendezvous-minimal_disturbance key [] dead node e other = cc
rendezvous-minimal_disturbance key (first ∷ rest) dead node e other =
    let h = rendezvous_hash key in
    let ne = subst (λ k. k ≢ dead) (sym (some_cancel e)) other in
    let kept : (c : ℕ × ℕ) (ns : List ℕ)
        → Agree dead (best_from h (0, first) (first ∷ rest))
            (best_from h c (without dead (first ∷ rest)))
        → without dead (first ∷ rest) ≡ ns
        → (best_from h c ns).1 ≡ (best_from h (0, first) (first ∷ rest)).1 =
      λ c ns agree eq.
        subst (λ ms. (best_from h c ms).1 ≡ (best_from h (0, first) (first ∷ rest)).1) eq
          (Agree-live agree ne) in
    elim (List-cases (without dead (first ∷ rest))) [
      | inl none_left ↦
          let agree =
            best_from-without h dead (first ∷ rest) (0, first) (0, dead)
              (inr (without_dead dead first rest none_left, omega arith)) in
          absurd (other (sym (some_cancel e) ∙ sym (kept (0, dead) [] agree none_left)))
      | inr (g, zs, left) ↦
          let agree =
            best_from-without h dead (first ∷ rest) (0, first) (0, g)
              (without_first dead first g rest zs left) in
          rw left (ap some (kept (0, g) (g ∷ zs) agree left ∙ some_cancel e))
    ]
