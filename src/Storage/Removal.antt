-- ===== src/Storage/Removal.antt =====
-- `purge` of crates/holofs-storage/src/node_service.rs removes the files of the shards that it drops, and no others.
use holofs.Prelude.{
  ℕ, ◌≡◌, ◌≢◌, inl, inr, refl, sym, ap, ◌∙◌, subst, true, not, Bool-cases, List, [], ◌∷◌, map, none,
  some, In, In-left, In-right, In-sides, ◌==◌, if◌then◌else◌,
}
use holofs.Shard.{Shard}
use holofs.Merkle.{Hash}
use holofs.Storage.HashMap.{find, find-retain, beq_apart, beq_self}
use holofs.Storage.Files.{Key, FilePath, path_keyed, path_beq, Disk, remove_file, shard_path}
use holofs.Storage.{key_keyed, hash_keyed, Bucket, object_hashes, remove_files}

find-remove_file :
    (p q : FilePath) (d : Disk)
    → find q (remove_file p d) ≡ (if not (path_beq p q) then find q d else none)
unfolding remove_file
find-remove_file p q d = find-retain q (λ r. not (path_beq p r)) d

find-remove_self : (p : FilePath) (d : Disk) → find p (remove_file p d) ≡ none
find-remove_self p d = find-remove_file p p d ∙ rw (beq_self p) refl

find-remove_other : (p q : FilePath) (d : Disk) → p ≢ q → find q (remove_file p d) ≡ find q d
find-remove_other p q d ne = find-remove_file p q d ∙ rw (beq_apart p q ne) refl

still_none : (p q : FilePath) (d : Disk) → find q d ≡ none → find q (remove_file p d) ≡ none
still_none p q d e =
    find-remove_file p q d ∙ elim (Bool-cases (path_beq p q)) [ inl t ↦ rw t refl | inr f ↦ rw f e ]

still_removed :
    (hs : List Hash) (q : FilePath) (d : Disk) → find q d ≡ none → find q (remove_files hs d) ≡ none
unfolding remove_files
still_removed [] q d e = e
still_removed (h ∷ hs) q d e =
    still_removed hs q (remove_file (shard_path h) d) (still_none (shard_path h) q d e)

pub removed :
    (hs : List Hash) (g : Hash) (d : Disk)
    → In g hs
    → find (shard_path g) (remove_files hs d) ≡ none
unfolding remove_files
removed (h ∷ hs) g d (inl e) = still_removed hs (shard_path g) (remove_file (shard_path h) d) (
    subst (λ x. find (shard_path g) (remove_file (shard_path x) d) ≡ none) (sym e)
      (find-remove_self (shard_path g) d))
removed (h ∷ hs) g d (inr i) = removed hs g (remove_file (shard_path h) d) i
removed [] g d i = absurd i

pub spared :
    (hs : List Hash) (q : FilePath) (d : Disk)
    → ((h : Hash) → In h hs → shard_path h ≢ q)
    → find q (remove_files hs d) ≡ find q d
unfolding remove_files
spared [] q d apart = refl
spared (h ∷ hs) q d apart =
    spared hs q (remove_file (shard_path h) d) (λ g i. apart g (inr i))
    ∙ find-remove_other (shard_path h) q d (apart h (inl refl))

-- What a removal leaves was there before.
pub was_there :
    (hs : List Hash) (q : FilePath) (d : Disk) (bytes : List ℕ)
    → find q (remove_files hs d) ≡ some bytes
    → find q d ≡ some bytes
unfolding remove_files
was_there [] q d bytes e = e
was_there (h ∷ hs) q d bytes e =
    let e1 = was_there hs q (remove_file (shard_path h) d) bytes e in
    let e2 = sym (find-remove_file (shard_path h) q d) ∙ e1 in
    elim (Bool-cases (path_beq (shard_path h) q)) [
      | inl t ↦ let bad = rw t at e2 in cc
      | inr f ↦ rw f at e2
    ]

In-keys : (h : Hash) (b : Bucket) → In h (map (λ e. e.0) b) → (s : Shard) × In (h, s) b
In-keys h [] i = absurd i
In-keys h ((g, t) ∷ b) (inl e) = (t, inl (ap (λ x. (x, t)) e))
In-keys h ((g, t) ∷ b) (inr i) = let (s, j) = In-keys h b i in (s, inr j)

keys-In : (h : Hash) (s : Shard) (b : Bucket) → In (h, s) b → In h (map (λ e. e.0) b)
keys-In h s [] i = absurd i
keys-In h s ((g, t) ∷ b) (inl e) = inl (ap (λ x. x.0) e)
keys-In h s ((g, t) ∷ b) (inr i) = inr (keys-In h s b i)

-- The hashes of an object are those of the shards that stand under its keys.
module _ (object_id : ℕ) where
  pub In-object_hashes :
      (k : Key) (h : Hash) (s : Shard) (b : Bucket) (m : List (Key × Bucket))
      → (k.0 == object_id) ≡ true
      → In (k, b) m
      → In (h, s) b
      → In h (object_hashes object_id m)
  unfolding object_hashes
  In-object_hashes k h s b [] own i j = absurd i
  In-object_hashes k h s b ((k', b') ∷ m) own (inl e) j =
      let own' : (k'.0 == object_id) ≡ true =
        ap (λ (x : Key × Bucket). x.0.0 == object_id) e ∙ own in
      let j' = subst (λ (x : Key × Bucket). In (h, s) x.1) (sym e) j in
      rw own' (In-left h (map (λ e. e.0) b') _ (keys-In h s b' j'))
  In-object_hashes k h s b ((k', b') ∷ m) own (inr i) j =
      let later = In-object_hashes k h s b m own i j in
      elim (Bool-cases (k'.0 == object_id)) [
        | inl t ↦ rw t (In-right h (map (λ e. e.0) b') _ later)
        | inr f ↦ rw f later
      ]

  pub object_hashes-In :
      (h : Hash) (m : List (Key × Bucket))
      → In h (object_hashes object_id m)
      → (k : Key) × (b : Bucket) × (s : Shard) × ((k.0 == object_id) ≡ true)
        × In (k, b) m
        × In (h, s) b
  unfolding object_hashes
  object_hashes-In h [] i = absurd i
  object_hashes-In h ((k, b) ∷ m) i =
      let further : In h (object_hashes object_id m)
          → (k' : Key) × (b' : Bucket) × (s : Shard) × ((k'.0 == object_id) ≡ true)
            × In (k', b') ((k, b) ∷ m)
            × In (h, s) b' =
        λ j.
          let (k', b', s, own, at, there) = object_hashes-In h m j in
          (k', b', s, own, inr at, there) in
      elim (Bool-cases (k.0 == object_id)) [
        | inl t ↦ elim (In-sides h (map (λ e. e.0) b) _ (rw t at i)) [
          | inl l ↦ let (s, there) = In-keys h b l in (k, b, s, t, inl refl, there)
          | inr r ↦ further r
        ]
        | inr f ↦ further (rw f at i)
      ]
