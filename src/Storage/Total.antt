-- ===== src/Storage/Total.antt =====
-- The number of shards that a store of crates/holofs-storage/src/node_service.rs reports.
use holofs.Prelude.{
  ℕ, suc, ◌+◌, ◌≡◌, inl, inr, refl, ap, Bool, true, false, not, Bool-cases, Option-cases, List, [],
  ◌∷◌, map, Option, none, some, length, length-append, ◌==◌, list_eq, if◌then◌else◌, arith,
}
use holofs.Shard.{Shard}
use holofs.Merkle.{Hash, shard_hash}
use holofs.Storage.HashMap.{find, insert, retain}
use holofs.Storage.Files.{Key, Disk, write_shard_file}
use holofs.Storage.{
  key_keyed, hash_keyed, key_beq, Bucket, Store, bucket, is_some, add, finish_put, put,
  object_hashes, purge, total_in, total,
}

length-insert_new :
    (h : Hash) (s : Shard) (b : Bucket) → find h b ≡ none → length (insert h s b) ≡ length b + 1
unfolding find insert
length-insert_new h s [] e = omega arith
length-insert_new h s ((g, t) ∷ b) e = elim (Bool-cases (list_eq g h)) [
  | inl same ↦ let e' = rw same at e in cc
  | inr other ↦ let rest = length-insert_new h s b (rw other at e) in rw other (omega arith)
]

total_in-insert :
    (k : Key) (b : Bucket) (m : List (Key × Bucket))
    → total_in (insert k b m) + length (bucket k m) ≡ total_in m + length b
unfolding total_in insert bucket find
total_in-insert k b [] = omega arith
total_in-insert k b ((j, c) ∷ m) = elim (Bool-cases (key_beq j k)) [
  | inl same ↦ rw (same, bucket) (omega arith)
  | inr other ↦ let rest = total_in-insert k b m in rw (other, bucket) (omega arith)
]

total_in-touch :
    (k : Key) (m : List (Key × Bucket)) → total_in (insert k (bucket k m) m) ≡ total_in m
total_in-touch k m = omega (arith, total_in-insert k (bucket k m) m)

total_in-add :
    (k : Key) (h : Hash) (s : Shard) (m : List (Key × Bucket))
    → find h (bucket k m) ≡ none
    → total_in (add k h s m) ≡ total_in m + 1
unfolding add
total_in-add k h s m e =
    omega
      (arith, total_in-insert k (insert h s (bucket k m)) m, length-insert_new h s (bucket k m) e)

abbrev pub counted : Bool → ℕ
counted added = if added then 1 else 0

total-finish_put :
    (k : Key) (h : Hash) (s : Shard) (st : Store) (r : Disk × Bool)
    → find h (bucket k st.shards) ≡ none
    → total (finish_put k h s st r).0 ≡ total st + counted (finish_put k h s st r).1
unfolding total finish_put
total-finish_put k h s st (d, true) e = total_in-add k h s st.shards e
total-finish_put k h s st (d, false) e = omega (arith, total_in-touch k st.shards)

absent-none : {A : Type 0} (o : Option A) → is_some o ≡ false → o ≡ none
absent-none none h = refl
absent-none (some a) h = cc

total-put :
    (fault : Option ℕ) (k : Key) (s : Shard) (st : Store)
    → total (put fault k s st).0 ≡ total st + counted (put fault k s st).1
unfolding total put
total-put fault k s st = elim (Bool-cases (is_some (find (shard_hash s) (bucket k st.shards)))) [
  | inl there ↦ rw there (omega (arith, total_in-touch k st.shards))
  | inr absent ↦
      let e = absent-none (find (shard_hash s) (bucket k st.shards)) absent in
      rw absent (elim (Option-cases st.dir) [
        | inl memory ↦ rw (memory, put) (total_in-add k (shard_hash s) s st.shards e)
        | inr (d, disk) ↦
            rw (disk, put)
              (unfold total in
                total-finish_put k (shard_hash s) s st (write_shard_file fault k (shard_hash s) s d)
                  e)
      ])
]

length-map_hash : (b : Bucket) → length (map (λ e. e.0) b) ≡ length b
length-map_hash [] = refl
length-map_hash (e ∷ b) = ap suc (length-map_hash b)

total_in-purge :
    (object_id : ℕ) (m : List (Key × Bucket))
    → total_in (retain (λ (k : Key). not (k.0 == object_id)) m) + length (object_hashes object_id m)
      ≡ total_in m
unfolding total_in retain object_hashes
total_in-purge object_id [] = omega arith
total_in-purge object_id ((k, b) ∷ m) =
    let rest = total_in-purge object_id m in
    let len = length-append (map (λ e. e.0) b) (object_hashes object_id m) in
    let len' = length-map_hash b in
    elim (Bool-cases (k.0 == object_id)) [ inl t ↦ rw t (omega arith) | inr f ↦ rw f (omega arith) ]

-- The books are kept: a put adds one to the number of shards if it says that it added the shard and
-- otherwise none, under any fault of the file system, and a purge takes away as many as it says.
pub total_conserved :
    (fault : Option ℕ) (k : Key) (s : Shard) (object_id : ℕ) (st : Store)
    → (total (put fault k s st).0 ≡ total st + counted (put fault k s st).1)
      × (total (purge object_id st).0 + (purge object_id st).1 ≡ total st)
unfolding purge total
total_conserved fault k s object_id st =
    (unfold total in total-put fault k s st, total_in-purge object_id st.shards)
