-- ===== src/Storage/Durable.antt =====
-- The requests to a node of crates/holofs-storage/src/node_service.rs that has a directory keep its files in step with
-- its index, whatever the file system refuses to write.
use holofs.Prelude.{
  ℕ, ◌≡◌, inl, inr, refl, sym, ap, ◌∙◌, subst, Bool, true, false, not, Bool-cases, Option-cases,
  List, Option, none, some,
}
use holofs.Shard.{Shard}
use holofs.Wire.Request as Req
use holofs.Wire.Request.{Request}
use holofs.Merkle.{Hash, shard_hash}
use holofs.Storage.Files.{Key, path_keyed, Disk, write_shard_file}
use holofs.Storage.{
  key_keyed, hash_keyed, Store, is_some, finish_put, put, get_by_hash, object_hashes, remove_files,
  purge,
}
use holofs.Storage.Handler.{handle_request}
use holofs.Storage.Filed.{IsFiled, put-IsFiled, purge-IsFiled}
use holofs.Storage.View.{get_by_hash-put}
use holofs.Storage.Crash.{Untouched, Written, write_shard_file-Written, write_shard_file-Untouched}
use holofs.Storage.RoundTrip.{Fits}
use holofs.Storage.Refines.{contents}
use holofs.Storage.Mirror.{Mirrors, Untouched-Mirrors, Written-Mirrors}
use holofs.Storage.Purged.{purge-Mirrors}

-- A node with a directory that holds the files of the stored shards, and no others.
pub record IsDurable (home : Hash → Key) (st : Store) : Type 0 where
  pub filed : IsFiled st
  pub disk : Disk
  pub persistent : st.dir ≡ some disk
  pub mirrors : Mirrors home (contents st) disk

-- A put of a shard that belongs under the key.
abbrev pub IsHomed : (Hash → Key) → Request → Type 0
IsHomed home (Req.put object_id channel layer s) =
    let k : Key = (object_id, channel, layer) in Fits k s × (home (shard_hash s) ≡ k)
IsHomed home other = Unit

purge_dir :
    (object_id : ℕ) (st : Store) (d : Disk)
    → st.dir ≡ some d
    → (purge object_id st).0.dir ≡ some (remove_files (object_hashes object_id st.shards) d)
unfolding purge
purge_dir object_id st d e = rw (e, purge) refl

put_present :
    (fault : Option ℕ) (k : Key) (s : Shard) (st : Store)
    → is_some (get_by_hash k (shard_hash s) st) ≡ true
    → ((put fault k s st).0.dir ≡ st.dir) × ((put fault k s st).1 ≡ false)
unfolding put get_by_hash
put_present fault k s st e = rw e (refl, refl)

put_absent :
    (fault : Option ℕ) (k : Key) (s : Shard) (st : Store) (d : Disk)
    → is_some (get_by_hash k (shard_hash s) st) ≡ false
    → st.dir ≡ some d
    → put fault k s st
      ≡ finish_put k (shard_hash s) s st (write_shard_file fault k (shard_hash s) s d)
unfolding put get_by_hash finish_put
put_absent fault k s st d e there = rw e (rw (there, put) refl)

finish_put-result :
    (k : Key) (h : Hash) (s : Shard) (st : Store) (r : Disk × Bool)
    → ((finish_put k h s st r).0.dir ≡ some r.0) × ((finish_put k h s st r).1 ≡ r.1)
unfolding finish_put
finish_put-result k h s st (d, true) = (refl, refl)
finish_put-result k h s st (d, false) = (refl, refl)

write_shard_file-flag :
    (fault : Option ℕ) (k : Key) (h : Hash) (s : Shard) (d : Disk)
    → (write_shard_file fault k h s d).1 ≡ not (is_some fault)
unfolding write_shard_file
write_shard_file-flag none k h s d = refl
write_shard_file-flag (some n) k h s d = refl

absent_none : {A : Type 0} (o : Option A) → is_some o ≡ false → o ≡ none
absent_none none e = refl
absent_none (some a) e = cc

-- The files after a put.
module _ (home : Hash → Key) (k : Key) (s : Shard) (st : Store) (d : Disk)
    (m : Mirrors home (contents st) d) (there : st.dir ≡ some d) (fits : Fits k s)
    (here : home (shard_hash s) ≡ k) where
  abbrev h : Hash
  h = shard_hash s

  abbrev AfterPut : Option ℕ → Type 0
  AfterPut fault =
      (d' : Disk) × ((put fault k s st).0.dir ≡ some d')
      × Mirrors home (contents (put fault k s st).0) d'

  refused_view :
      (fault : Option ℕ)
      → (put fault k s st).1 ≡ false
      → (j : Key) (g : Hash) → contents (put fault k s st).0 j g ≡ contents st j g
  refused_view fault e j g = get_by_hash-put fault k j s g st ∙ rw e refl

  after_put : (fault : Option ℕ) → is_some (get_by_hash k h st) ≡ false → AfterPut fault
  after_put fault absent =
      let r = write_shard_file fault k h s d in
      let same = put_absent fault k s st d absent there in
      let (dir, flag) = finish_put-result k h s st r in
      let flag' = ap (λ x. x.1) same ∙ flag ∙ write_shard_file-flag fault k h s d in
      (
        r.0,
        ap (λ x. x.0.dir) same ∙ dir,
        elim (Option-cases fault) [
          | inl fine ↦
              let added : (put fault k s st).1 ≡ true = flag' ∙ rw fine refl in
              Written-Mirrors home (contents st) (contents (put fault k s st).0) d r.0 m k s fits
                here (absent_none _ absent)
                (subst (λ f. Written k h s d (write_shard_file f k h s d).0) (sym fine)
                  (write_shard_file-Written k h s d))
                (λ j g. get_by_hash-put fault k j s g st ∙ rw added refl)
          | inr (n, bad) ↦
              let refused : (put fault k s st).1 ≡ false = flag' ∙ rw bad refl in
              Untouched-Mirrors home (contents st) (contents (put fault k s st).0) d r.0 m k h s
                (subst (λ f. Untouched k h s d (write_shard_file f k h s d).0) (sym bad)
                  (write_shard_file-Untouched k h s d n))
                (refused_view fault refused)
        ],
      )

  put-AfterPut : (fault : Option ℕ) → AfterPut fault
  put-AfterPut fault = elim (Bool-cases (is_some (get_by_hash k h st))) [
    | inl present ↦
        let (dir, refused) = put_present fault k s st present in
        (
          d,
          dir ∙ there,
          Untouched-Mirrors home (contents st) (contents (put fault k s st).0) d d m k h s
              (λ q ne. refl) (refused_view fault refused),
        )
    | inr absent ↦ after_put fault absent
  ]

-- Every request keeps the files in step with the index, under any fault of the file system.
pub handle_request-IsDurable :
    (sign : List ℕ → List ℕ) (home : Hash → Key) (fault : Option ℕ) (req : Request) (st : Store)
    → IsHomed home req
    → IsDurable home st
    → IsDurable home (handle_request sign fault req st).0
unfolding handle_request
handle_request-IsDurable sign home fault Req.ping st ok h = h
handle_request-IsDurable sign home fault (Req.put o c l s) st ok h =
    let (d, dir, m) =
      put-AfterPut home (o, c, l) s st h.disk h.mirrors h.persistent ok.0 ok.1 fault in
    record {
      filed = put-IsFiled fault (o, c, l) s st h.filed;
      disk = d;
      persistent = dir;
      mirrors = m;
    }
handle_request-IsDurable sign home fault (Req.get o c l) st ok h = h
handle_request-IsDurable sign home fault (Req.purge o) st ok h = record {
  filed = purge-IsFiled o st h.filed;
  disk = remove_files (object_hashes o st.shards) h.disk;
  persistent = purge_dir o st h.disk h.persistent;
  mirrors = purge-Mirrors home o st h.disk h.filed h.mirrors;
}
handle_request-IsDurable sign home fault Req.stat st ok h = h
handle_request-IsDurable sign home fault (Req.audit o c l sh) st ok h = h
handle_request-IsDurable sign home fault (Req.auth_challenge n) st ok h = h
