-- ===== src/Client/Ready.antt =====
-- Nodes of crates/holofs-storage/src/node_service.rs that hold no other shards of an object than those made for it,
-- and the size of what they send.
use holofs.Prelude.{
  ℕ, suc, ◌≤◌, ◌≡◌, inl, inr, refl, sym, ap, ◌∙◌, subst, not, Bool-cases, List, [], ◌∷◌, map, none,
  some, In, All, length, list_eq, list_eq_iff, arith,
}
use holofs.Shard.{Shard}
use holofs.Merkle.{Hash, shard_hash}
use holofs.Storage.HashMap.{find, retain, Distinct, retain-Distinct, All-retain, find-In}
use holofs.Storage.Files.{Key}
use holofs.Storage.{hash_keyed, Bucket, Store, bucket, get, get_by_hash}
use holofs.Storage.Filed.{UnderItsHash, IsBucket, IsFiled, bucket-IsBucket}

retain_absent : (h : Hash) (b : Bucket) → find h b ≡ none → retain (λ g. not (list_eq g h)) b ≡ b
unfolding find retain
retain_absent h [] e = refl
retain_absent h ((g, s) ∷ b) e = elim (Bool-cases (list_eq g h)) [
  | inl t ↦ let bad = rw t at e in cc
  | inr f ↦ rw f (ap (λ m. (g, s) ∷ m) (retain_absent h b (rw f at e)))
]

length-retain :
    (h : Hash) (b : Bucket)
    → Distinct b
    → length b ≤ suc (length (retain (λ g. not (list_eq g h)) b))
unfolding retain
length-retain h [] d = omega arith
length-retain h ((g, s) ∷ b) d = elim (Bool-cases (list_eq g h)) [
  | inl t ↦
      let same = (list_eq_iff g h).0 t in
      let whole = retain_absent h b (subst (λ x. find x b ≡ none) same d.0) in
      rw t (rw whole (omega arith))
  | inr f ↦ let rest = length-retain h b d.1 in rw f (omega arith)
]

-- Without the entry of its hash, a shard is no value any more.
without :
    (x : Shard) (made : List Shard) (b : Bucket)
    → All UnderItsHash b
    → All (λ e. In e.1 (x ∷ made)) b
    → All (λ e. In e.1 made) (retain (λ g. not (list_eq g (shard_hash x))) b)
unfolding retain
without x made [] u h = tt
without x made ((g, s) ∷ b) u h =
    let rest = without x made b u.1 h.1 in
    elim (Bool-cases (list_eq g (shard_hash x))) [
      | inl t ↦ rw t rest
      | inr f ↦ rw f (elim h.0 [
        | inl same ↦ let t = (list_eq_iff g (shard_hash x)).1 (u.0 ∙ ap shard_hash (sym same)) in cc
        | inr later ↦ (later, rest)
      ])
    ]

-- A bucket whose values are among some shards has at most as many.
length-bucket :
    (made : List Shard) (b : Bucket)
    → IsBucket b
    → All (λ e. In e.1 made) b
    → length b ≤ length made
length-bucket [] [] hb h = omega arith
length-bucket [] (e ∷ b) hb h = absurd h.0
length-bucket (x ∷ made) b hb h =
    let p = λ (g : Hash). not (list_eq g (shard_hash x)) in
    let fewer =
      length-bucket made (retain p b) (retain-Distinct p b hb.0, All-retain UnderItsHash p b hb.1)
        (without x made b hb.1 h) in
    omega (arith, length-retain (shard_hash x) b hb.0)

All-entries :
    (P : Shard → Type 0) (b : Bucket) (c : Bucket)
    → ((h : Hash) (s : Shard) → In (h, s) b → P s)
    → ((h : Hash) (s : Shard) → In (h, s) c → In (h, s) b)
    → All (λ e. P e.1) c
All-entries P b [] f g = tt
All-entries P b ((h, s) ∷ c) f g =
    (f h s (g h s (inl refl)), All-entries P b c f (λ h' s' i. g h' s' (inr i)))

length-map : (b : Bucket) → length (map (λ e. e.1) b) ≡ length b
length-map [] = refl
length-map (e ∷ b) = ap suc (length-map b)

All-map : (P : Shard → Type 0) (b : Bucket) → All (λ e. P e.1) b → All P (map (λ e. e.1) b)
All-map P [] h = tt
All-map P (e ∷ b) h = (h.0, All-map P b h.1)

-- The place of a layer of an object with one channel and one layer.
abbrev pub layer_key : ℕ → Key
layer_key object_id = (object_id, 0, 0)

-- A node whose shards of the object are among those that were made.
pub record IsNode (object_id : ℕ) (made : List Shard) (st : Store) : Type 0 where
  pub filed : IsFiled st
  pub only_made :
      (h : Hash) (s : Shard) → get_by_hash (layer_key object_id) h st ≡ some s → In s made

-- Such a node replies to a get with at most as many shards as were made, all of them made.
pub get-made :
    (object_id : ℕ) (made : List Shard) (st : Store)
    → IsNode object_id made st
    → (length (get (layer_key object_id) st) ≤ length made)
      × All (λ s. In s made) (get (layer_key object_id) st)
unfolding get get_by_hash
get-made object_id made st node =
    let b = bucket (layer_key object_id) st.shards in
    let hb = bucket-IsBucket (layer_key object_id) st.shards node.filed.filed in
    let all =
      All-entries (λ s. In s made) b b (λ h s i. node.only_made h s (find-In h s b hb.0 i))
        (λ h s i. i) in
    let few = length-bucket made b hb all in
    (omega (arith, length-map b), All-map (λ s. In s made) b all)
