-- ===== src/Storage/View.antt =====
-- The store of crates/holofs-storage/src/node_service.rs seen as a partial map from keys and hashes to shards,
-- which forgets the buckets, their order and the files.
use holofs.Prelude.{
  ℕ, ◌≡◌, ◌↔◌, inl, inr, refl, ap, ◌∙◌, Bool, true, false, ◌&&◌, not, Bool-cases, Option-cases,
  List, [], ◌∷◌, map, Option, none, some, In, ◌==◌, list_eq, list_eq_iff, list_eq_refl,
  if◌then◌else◌,
}
use holofs.Shard.{Shard}
use holofs.Merkle.{Hash, shard_hash}
use holofs.Storage.HashMap.{find, insert, retain, find-insert, find-retain, In-find, find-In}
use holofs.Storage.Files.{Key, Disk, write_shard_file}
use holofs.Storage.{
  key_keyed, hash_keyed, key_beq, key_beq_iff, Bucket, Store, bucket, is_some, add, finish_put, put,
  get, get_by_hash, purge, wipe,
}
use holofs.Storage.Filed.{IsFiled, bucket-IsBucket}

pub bucket-insert :
    (j k : Key) (b : Bucket) (m : List (Key × Bucket))
    → bucket j (insert k b m) ≡ (if key_beq k j then b else bucket j m)
unfolding bucket
bucket-insert j k b m = elim (Bool-cases (key_beq k j)) [
  | inl t ↦
      let e : find j (insert k b m) ≡ some b = find-insert j k b m ∙ rw t refl in
      rw (e, bucket) (rw t refl)
  | inr f ↦
      let e : find j (insert k b m) ≡ find j m = find-insert j k b m ∙ rw f refl in
      rw (e, bucket) (rw f refl)
]

pub bucket-retain :
    (j : Key) (p : Key → Bool) (m : List (Key × Bucket))
    → bucket j (retain p m) ≡ (if p j then bucket j m else [])
unfolding bucket
bucket-retain j p m = elim (Bool-cases (p j)) [
  | inl t ↦
      let e : find j (retain p m) ≡ find j m = find-retain j p m ∙ rw t refl in
      rw (e, bucket) (rw t refl)
  | inr f ↦
      let e : find j (retain p m) ≡ none = find-retain j p m ∙ rw f refl in
      rw (e, bucket) (rw f refl)
]

-- The place of a shard.
abbrev pub same_place : Key → Hash → Key → Hash → Bool
same_place k h k' h' = key_beq k k' && list_eq h h'

place_split : (a b : Bool) → (a && b) ≡ true → (a ≡ true) × (b ≡ true)
place_split true b e = (refl, e)
place_split false b e = cc

pub same_place_sound : (k j : Key) (h g : Hash) → same_place k h j g ≡ true → (k ≡ j) × (h ≡ g)
same_place_sound k j h g e =
    let (a, b) = place_split (key_beq k j) (list_eq h g) e in
    ((key_beq_iff k j).0 a, (list_eq_iff h g).0 b)

pub same_place_self : (k : Key) (h : Hash) → same_place k h k h ≡ true
same_place_self k h = rw ((key_beq_iff k k).1 refl) (list_eq_refl h)

pub find-add :
    (j k : Key) (g h : Hash) (s : Shard) (m : List (Key × Bucket))
    → find g (bucket j (add k h s m)) ≡ (if same_place k h j g then some s else find g (bucket j m))
unfolding add
find-add j k g h s m = elim (Bool-cases (key_beq k j)) [
  | inl t ↦
      let same = (key_keyed.beq_iff k j).0 t in
      rw (bucket-insert j k _ m) (rw t (rw (find-insert g h s (bucket k m)) (rw same refl)))
  | inr f ↦ rw (bucket-insert j k _ m) (rw f refl)
]

touched :
    (j k : Key) (g : Hash) (m : List (Key × Bucket))
    → find g (bucket j (insert k (bucket k m) m)) ≡ find g (bucket j m)
touched j k g m = elim (Bool-cases (key_beq k j)) [
  | inl t ↦
      let same = (key_keyed.beq_iff k j).0 t in
      rw (bucket-insert j k (bucket k m) m) (rw t (rw same refl))
  | inr f ↦ rw (bucket-insert j k (bucket k m) m) (rw f refl)
]

finish_put-view :
    (k j : Key) (s : Shard) (g : Hash) (st : Store) (r : Disk × Bool)
    → let (st', added) = finish_put k (shard_hash s) s st r in
      get_by_hash j g st'
      ≡ (if added && same_place k (shard_hash s) j g then some s else get_by_hash j g st)
unfolding get_by_hash finish_put
finish_put-view k j s g st (d, true) = find-add j k g (shard_hash s) s st.shards
finish_put-view k j s g st (d, false) = touched j k g st.shards

-- A put adds the shard at its place if it says so, and changes nothing else.
pub get_by_hash-put :
    (fault : Option ℕ) (k j : Key) (s : Shard) (g : Hash) (st : Store)
    → let (st', added) = put fault k s st in
      get_by_hash j g st'
      ≡ (if added && same_place k (shard_hash s) j g then some s else get_by_hash j g st)
unfolding get_by_hash put
get_by_hash-put fault k j s g st =
    elim (Bool-cases (is_some (find (shard_hash s) (bucket k st.shards)))) [
      | inl there ↦ rw there (touched j k g st.shards)
      | inr absent ↦ rw absent (elim (Option-cases st.dir) [
        | inl memory ↦ rw (memory, put) (find-add j k g (shard_hash s) s st.shards)
        | inr (d, disk) ↦
            rw (disk, put)
              (finish_put-view k j s g st (write_shard_file fault k (shard_hash s) s d))
      ])
    ]

-- A put is refused exactly if the shard is there already, or the file system fails.
pub put-added :
    (fault : Option ℕ) (k : Key) (s : Shard) (st : Store)
    → (put fault k s st).1
      ≡ (not (is_some (get_by_hash k (shard_hash s) st)) && not (is_some st.dir && is_some fault))
unfolding get_by_hash put finish_put write_shard_file
put-added fault k s st = elim (Bool-cases (is_some (find (shard_hash s) (bucket k st.shards)))) [
  | inl there ↦ rw there refl
  | inr absent ↦ rw absent (elim (Option-cases st.dir) [
    | inl memory ↦ rw (memory, put) refl
    | inr (d, disk) ↦
        rw (disk, put)
          (elim (Option-cases fault) [
            | inl fine ↦ rw (fine, write_shard_file) refl
            | inr (n, bad) ↦ rw (bad, write_shard_file) refl
          ])
  ])
]

pub get_by_hash-purge :
    (object_id : ℕ) (j : Key) (g : Hash) (st : Store)
    → get_by_hash j g (purge object_id st).0
      ≡ (if j.0 == object_id then none else get_by_hash j g st)
unfolding get_by_hash purge find
get_by_hash-purge object_id j g st = elim (Bool-cases (j.0 == object_id)) [
  | inl t ↦ rw (bucket-retain j (λ (k : Key). not (k.0 == object_id)) st.shards) (rw t refl)
  | inr f ↦ rw (bucket-retain j (λ (k : Key). not (k.0 == object_id)) st.shards) (rw f refl)
]

pub get_by_hash-wipe : (j : Key) (g : Hash) (st : Store) → get_by_hash j g (wipe st) ≡ none
unfolding get_by_hash wipe bucket find
get_by_hash-wipe j g st = refl

In-values : (s : Shard) (b : Bucket) → In s (map (λ e. e.1) b) ↔ ((h : Hash) × In (h, s) b)
In-values s b = (there b, back b)
  where
    there : (b : Bucket) → In s (map (λ e. e.1) b) → (h : Hash) × In (h, s) b
    there [] i = absurd i
    there ((h, t) ∷ b) (inl e) = (h, inl (ap (λ x. (h, x)) e))
    there ((h, t) ∷ b) (inr i) = let (g, at) = there b i in (g, inr at)

    back : (b : Bucket) → (h : Hash) × In (h, s) b → In s (map (λ e. e.1) b)
    back [] (h, i) = absurd i
    back ((g, t) ∷ b) (h, inl e) = inl (ap (λ x. x.1) e)
    back ((g, t) ∷ b) (h, inr i) = inr (back b (h, i))

-- What `get` returns are the shards that can be looked up under the key by some hash.
pub In-get :
    (k : Key) (s : Shard) (st : Store)
    → IsFiled st
    → In s (get k st) ↔ ((h : Hash) × (get_by_hash k h st ≡ some s))
unfolding get get_by_hash
In-get k s st f =
    let b = bucket k st.shards in
    let distinct = (bucket-IsBucket k st.shards f.filed).0 in
    (
      λ i. let (h, at) = (In-values s b).0 i in (h, find-In h s b distinct at),
      λ e. (In-values s b).1 (e.0, In-find e.0 s b e.1),
    )
