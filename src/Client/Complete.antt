-- ===== src/Client/Complete.antt =====
-- A file of crates/holofs-client/src/client.rs that is put on a healthy cluster is read back from it.
use holofs.Prelude.{
  ℕ, zero, suc, ◌+◌, ◌*◌, ◌%◌, ◌^◌, ◌<◌, ◌≤◌, ◌≡◌, inl, inr, refl, sym, ◌∙◌, subst, List, [], ◌∷◌,
  ◌++◌, map, none, some, In, All, All-append, length, get_elem?, arith,
}
use holofs.Shard.{Shard}
use holofs.Merkle.{shard_hash}
use holofs.Manifest.{Manifest}
use holofs.Manifest.Place.{place_shard}
use holofs.Wire.Frame.{max_frame}
use holofs.Client.{Address, done, ask, command, expect_ack}
use holofs.Client.Gather.{expect_shards, gather_from, send_shards}
use holofs.Client.Cluster.{Nodes, cluster}
use holofs.Client.Integrity.{NoClash}
use holofs.Client.Transport.{Shape, AreReady, Holds, after-send, after-get}

In-left : (p : Shard) (xs ys : List Shard) → In p xs → In p (xs ++ ys)
In-left p [] ys h = absurd h
In-left p (x ∷ xs) ys (inl e) = inl e
In-left p (x ∷ xs) ys (inr h) = inr (In-left p xs ys h)

In-right : (p : Shard) (xs ys : List Shard) → In p ys → In p (xs ++ ys)
In-right p [] ys h = h
In-right p (x ∷ xs) ys h = inr (In-right p xs ys h)

In-get_elem : (xs : List Address) (i : ℕ) (a : Address) → get_elem? xs i ≡ some a → In a xs
In-get_elem [] i a e = absurd (let bad : none ≡ some a = e in cc)
In-get_elem (x ∷ xs) zero a e = inl (let e' : some x ≡ some a = e in cc)
In-get_elem (x ∷ xs) (suc i) a e = inr (In-get_elem xs i a e)

-- The shards from the index `idx` on, `n` of them, have places on live nodes of the manifest.
abbrev pub HavePlaces : Manifest → List ℕ → ℕ → ℕ → Type 0
HavePlaces m live idx n =
    (i : ℕ)
    → idx ≤ i
    → i < idx + n
    → (node : ℕ) × (a : Address) × (place_shard m 0 0 (i % 2 ^ 32) live ≡ some node)
      × In node live
      × (get_elem? m.nodes node ≡ some a)

module _ (sign : List ℕ → List ℕ) (m : Manifest) (sl : ℕ) (made : List Shard)
    (id_fits : m.object_id < 2 ^ 64) (shaped : (s : Shard) → In s made → Shape sl s)
    (room : length made * (sl + 22) + 11 ≤ max_frame) (clear : NoClash made made) where
  abbrev pub IsUp : Nodes → Type 0
  IsUp nodes = AreReady m.object_id made m.nodes nodes

  abbrev pub IsHeld : Nodes → Address → Shard → Type 0
  IsHeld nodes a s = Holds m.object_id nodes a s

  -- The shard can be read from one of the live nodes.
  abbrev pub Placed : List ℕ → Nodes → Shard → Type 0
  Placed live nodes s =
      (node : ℕ) × (a : Address) × In node live
      × (get_elem? m.nodes node ≡ some a)
      × IsHeld nodes a s

  pub record AllSent (live : List ℕ) (idx : ℕ) (ss : List Shard) (nodes nodes' : Nodes)
      : Type 0 where
    pub sent :
        send_shards (cluster sign) m live 0 0 idx ss nodes ≡ (done (map shard_hash ss), nodes')
    pub up : IsUp nodes'
    pub placed : (s : Shard) → In s ss → Placed live nodes' s
    pub kept : (a : Address) (t : Shard) → IsHeld nodes a t → IsHeld nodes' a t

  pub all-sent :
      (live : List ℕ) (idx : ℕ) (ss : List Shard) (nodes : Nodes)
      → IsUp nodes
      → HavePlaces m live idx (length ss)
      → ((s : Shard) → In s ss → In s made)
      → (nodes' : Nodes) × AllSent live idx ss nodes nodes'
  unfolding send_shards command ask expect_ack
  all-sent live idx [] nodes up places from =
      (nodes, record { sent = refl; up = up; placed = λ s i. absurd i; kept = λ a t h. h })
  all-sent live idx (s ∷ ss) nodes up places from =
      let (node, a, place, is_live, at) = places idx (omega arith) (omega arith) in
      let (mid, after) =
        after-send sign m.object_id sl made id_fits shaped room clear m.nodes a s nodes up
          (In-get_elem m.nodes node a at) (from s (inl refl)) in
      let (nodes', rest) =
        all-sent live (idx + 1) ss mid after.ready (λ i le lt. places i (omega arith) (omega arith))
          (λ t i. from t (inr i)) in
      (
        nodes',
        record {
          sent = rw place (rw at (rw after.called (rw rest.sent refl)));
          up = rest.up;
          placed = λ t i. elim i [
            | inl same ↦
                (node, a, is_live, at, rest.kept a t (subst (IsHeld mid a) same after.holds))
            | inr later ↦ rest.placed t later
          ];
          kept = λ b t h. rest.kept b t (after.still_holds b t h);
        },
      )

  pub record AllGot (live : List ℕ) (nodes : Nodes) (raw : List Shard) : Type 0 where
    pub got : gather_from (cluster sign) m 0 0 live nodes ≡ (done raw, nodes)
    pub only_made : All (λ s. In s made) raw
    pub all_placed : (s : Shard) → Placed live nodes s → In s raw

  pub all-got :
      (live : List ℕ) (nodes : Nodes)
      → IsUp nodes
      → All (λ i. (a : Address) × (get_elem? m.nodes i ≡ some a)) live
      → (raw : List Shard) × AllGot live nodes raw
  unfolding gather_from ask expect_shards
  all-got [] nodes up inside =
      ([], record { got = refl; only_made = tt; all_placed = λ s p. absurd p.2 })
  all-got (node ∷ live) nodes up inside =
      let (a, at) = inside.0 in
      let (v, after) =
        after-get sign m.object_id sl made id_fits shaped room clear m.nodes a nodes up
          (In-get_elem m.nodes node a at) in
      let (raw, rest) = all-got live nodes up inside.1 in
      (
        v ++ raw,
        record {
          got = rw at (rw after.called (rw rest.got refl));
          only_made = All-append (λ s. In s made) v raw after.only_made rest.only_made;
          all_placed = λ s (n, b, is_live, at_b, held). elim is_live [
            | inl same ↦
                let at' = subst (λ k. get_elem? m.nodes k ≡ some b) (sym same) at_b in
                let eq = address_of a b (sym at ∙ at') in
                In-left s v raw (after.all_held s (subst (λ x. IsHeld nodes x s) (sym eq) held))
            | inr later ↦ In-right s v raw (rest.all_placed s (n, b, later, at_b, held))
          ];
        },
      )
    where
      address_of : (a b : Address) → some a ≡ some b → a ≡ b
      address_of a b e = cc
