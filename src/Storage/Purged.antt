-- ===== src/Storage/Purged.antt =====
-- The files of a node of crates/holofs-storage/src/node_service.rs after `purge`.
use holofs.Prelude.{
  ℕ, ◌≡◌, inl, inr, sym, ap, ◌∙◌, true, false, Bool-cases, Option-cases, List, some, In, ◌==◌,
}
use holofs.Shard.{Shard}
use holofs.Merkle.{Hash}
use holofs.Storage.HashMap.{find, In-find, find-In, All-find}
use holofs.Storage.Files.{Key, FilePath, path_keyed, Disk, shard_path, is_shard_file, file_bytes}
use holofs.Storage.{
  key_keyed, hash_keyed, Bucket, Store, bucket, get_by_hash, object_hashes, remove_files, purge,
}
use holofs.Storage.Filed.{IsBucket, AreFiled, IsFiled}
use holofs.Storage.View.{get_by_hash-purge}
use holofs.Storage.Paths.{shard_path-injective}
use holofs.Storage.Refines.{Contents, contents}
use holofs.Storage.Mirror.{HasFile, Mirrors, stored-IsHash, still_HasFile}
use holofs.Storage.Removal.{spared, removed, was_there, In-object_hashes, object_hashes-In}

looked_up :
    (k : Key) (h : Hash) (s : Shard) (m : List (Key × Bucket))
    → find h (bucket k m) ≡ some s
    → (b : Bucket) × In (k, b) m × In (h, s) b
unfolding bucket find
looked_up k h s m e = elim (Option-cases (find k m)) [
  | inl absent ↦ let bad = rw (absent, bucket) at e in cc
  | inr (b, there) ↦ (b, In-find k b m there, In-find h s b (rw (there, bucket) at e))
]

look_up :
    (k : Key) (h : Hash) (s : Shard) (b : Bucket) (m : List (Key × Bucket))
    → AreFiled m
    → In (k, b) m
    → In (h, s) b
    → find h (bucket k m) ≡ some s
unfolding bucket
look_up k h s b m filed at there =
    let found = find-In k b m filed.0 at in
    let hb = All-find (λ e. IsBucket e.1) k b m filed.1 found in
    rw (found, bucket) (find-In h s b hb.0 there)

module _ (home : Hash → Key) (object_id : ℕ) (st : Store) (d : Disk) (filed : IsFiled st)
    (m : Mirrors home (contents st) d) where
  abbrev hs : List Hash
  hs = object_hashes object_id st.shards

  abbrev after : Contents
  after = contents (purge object_id st).0

  kept_view :
      (j : Key) (g : Hash) (t : Shard)
      → after j g ≡ some t
      → ((j.0 == object_id) ≡ false) × (contents st j g ≡ some t)
  kept_view j g t e =
      let e' = sym (get_by_hash-purge object_id j g st) ∙ e in
      elim (Bool-cases (j.0 == object_id)) [
        | inl own ↦ let bad = rw own at e' in cc
        | inr other ↦ (other, rw other at e')
      ]

  kept_file :
      (j : Key) (g : Hash) (t : Shard)
      → after j g ≡ some t
      → find (shard_path g) (remove_files hs d) ≡ some (file_bytes j t)
  unfolding get_by_hash
  kept_file j g t e =
      let (other, e') = kept_view j g t e in
      spared hs (shard_path g) d (λ h i p.
        let (k, b, s, own, at, there) = object_hashes-In object_id h st.shards i in
        let found = look_up k h s b st.shards filed.filed at there in
        let same =
          shard_path-injective h g (stored-IsHash home (contents st) after d d m k h s found)
            (stored-IsHash home (contents st) after d d m j g t e') p in
        let one_key = sym (m.homed k h s found) ∙ ap home same ∙ m.homed j g t e' in
        let bad = sym own ∙ ap (λ (x : Key). x.0 == object_id) one_key ∙ other in cc)
      ∙ m.kept j g t e'

  no_other_file :
      (p : FilePath) (bytes : List ℕ)
      → is_shard_file p ≡ true
      → find p (remove_files hs d) ≡ some bytes
      → HasFile after p bytes
  unfolding get_by_hash
  no_other_file p bytes named e =
      let old = m.no_more p bytes named (was_there hs p d bytes e) in
      elim (Bool-cases (old.k.0 == object_id)) [
        | inl own ↦
            let (b, at, there) = looked_up old.k old.h old.s st.shards old.stored in
            let i = In-object_hashes object_id old.k old.h old.s b st.shards own at there in
            let bad =
              sym (removed hs old.h d i)
              ∙ ap (λ q. find q (remove_files hs d)) (sym old.path)
              ∙ e in
            cc
        | inr other ↦
            still_HasFile home (contents st) after d d m p bytes old
              (get_by_hash-purge object_id old.k old.h st ∙ rw other old.stored)
      ]

  -- A purge keeps the files in step with the index.
  pub purge-Mirrors : Mirrors home after (remove_files hs d)
  purge-Mirrors = record {
    named = λ j g t e. m.named j g t (kept_view j g t e).1;
    fits = λ j g t e. m.fits j g t (kept_view j g t e).1;
    homed = λ j g t e. m.homed j g t (kept_view j g t e).1;
    kept = kept_file;
    no_more = no_other_file;
  }
