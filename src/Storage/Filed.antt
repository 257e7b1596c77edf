-- ===== src/Storage/Filed.antt =====
-- What holds of every store of crates/holofs-storage/src/node_service.rs between two requests: each shard is
-- filed under its own hash, and nothing is filed twice.
use holofs.Prelude.{
  ℕ, ◌≡◌, ◌⊎◌, subst, inl, inr, refl, sym, ap, ◌∙◌, list_eq, take, drop, get_or, Bool, true, false,
  Bool-cases, Option-cases, List, [], ◌∷◌, Option, All, not, ◌==◌,
}
use holofs.Shard.{Shard}
use holofs.Codec.Io.{ErrorKind, Result, ok, err, ok_injective, map_ok}
use holofs.Codec.Bytes.{from_be_bytes}
use holofs.Codec.Cursor.{Reader, continue, pure, fail, ◌>>=◌, run, take as read}
use holofs.Wire.Request as Req
use holofs.Wire.Request.{Request}
use holofs.Merkle.{Hash, shard_hash}
use holofs.Storage.HashMap.{
  find, insert, Distinct, insert-Distinct, retain-Distinct, All-find, All-insert, All-retain,
}
use holofs.Storage.Files.{
  Key, FilePath, path_keyed, Disk, read_body, read_shard_file, shard_magic, walk_shard_files,
}
use holofs.Storage.{
  key_keyed, hash_keyed, Bucket, Store, new, bucket, is_some, add, finish_put, put, purge,
  index_file, index_files, open_dir,
}
use holofs.Storage.Handler.{handle_request}

abbrev pub UnderItsHash : Hash × Shard → Type 0
UnderItsHash e = e.0 ≡ shard_hash e.1

abbrev pub IsBucket : Bucket → Type 0
IsBucket b = Distinct b × All UnderItsHash b

abbrev pub AreFiled : List (Key × Bucket) → Type 0
AreFiled shards = Distinct shards × All (λ e. IsBucket e.1) shards

pub record IsFiled (st : Store) : Type 0 where
  pub filed : AreFiled st.shards

pub bucket-IsBucket : (k : Key) (m : List (Key × Bucket)) → AreFiled m → IsBucket (bucket k m)
unfolding bucket
bucket-IsBucket k m h = elim (Option-cases (find k m)) [
  | inl absent ↦ rw (absent, bucket) (tt, tt)
  | inr (b, there) ↦ rw (there, bucket) (All-find (λ e. IsBucket e.1) k b m h.1 there)
]

insert-AreFiled :
    (k : Key) (b : Bucket) (m : List (Key × Bucket))
    → AreFiled m
    → IsBucket b
    → AreFiled (insert k b m)
insert-AreFiled k b m h hb =
    (insert-Distinct k b m h.0, All-insert (λ e. IsBucket e.1) k b m h.1 hb)

add-AreFiled :
    (k : Key) (s : Shard) (m : List (Key × Bucket))
    → AreFiled m
    → AreFiled (add k (shard_hash s) s m)
unfolding add
add-AreFiled k s m h =
    let hb = bucket-IsBucket k m h in
    insert-AreFiled k _ m h (
      insert-Distinct (shard_hash s) s (bucket k m) hb.0,
      All-insert UnderItsHash (shard_hash s) s (bucket k m) hb.1 refl,
    )

finish_put-IsFiled :
    (k : Key) (s : Shard) (st : Store) (r : Disk × Bool)
    → IsFiled st
    → IsFiled (finish_put k (shard_hash s) s st r).0
unfolding finish_put
finish_put-IsFiled k s st (d, true) h = record { filed = add-AreFiled k s st.shards h.filed }
finish_put-IsFiled k s st (d, false) h = record {
  filed = insert-AreFiled k _ st.shards h.filed (bucket-IsBucket k st.shards h.filed);
}

pub put-IsFiled :
    (fault : Option ℕ) (k : Key) (s : Shard) (st : Store)
    → IsFiled st
    → IsFiled (put fault k s st).0
unfolding put
put-IsFiled fault k s st h =
    elim (Bool-cases (is_some (find (shard_hash s) (bucket k st.shards)))) [
      | inl there ↦ rw there (record {
        filed = insert-AreFiled k _ st.shards h.filed (bucket-IsBucket k st.shards h.filed);
      })
      | inr absent ↦ rw absent (elim (Option-cases st.dir) [
        | inl memory ↦ rw (memory, put) (record { filed = add-AreFiled k s st.shards h.filed })
        | inr (d, disk) ↦ rw (disk, put) (finish_put-IsFiled k s st _ h)
      ])
    ]

pub purge-IsFiled : (object_id : ℕ) (st : Store) → IsFiled st → IsFiled (purge object_id st).0
unfolding purge
purge-IsFiled object_id st h =
    let other = λ (k : Key). not (k.0 == object_id) in
    record {
      filed = (
        retain-Distinct other st.shards h.filed.0,
        All-retain (λ e. IsBucket e.1) other st.shards h.filed.1,
      );
    }

pub new-IsFiled : IsFiled new
unfolding new
new-IsFiled = record { filed = (tt, tt) }

pub handle_request-IsFiled :
    (sign : List ℕ → List ℕ) (fault : Option ℕ) (req : Request) (st : Store)
    → IsFiled st
    → IsFiled (handle_request sign fault req st).0
unfolding handle_request
handle_request-IsFiled sign fault Req.ping st h = h
handle_request-IsFiled sign fault (Req.put o c l s) st h = put-IsFiled fault (o, c, l) s st h
handle_request-IsFiled sign fault (Req.get o c l) st h = h
handle_request-IsFiled sign fault (Req.purge o) st h = purge-IsFiled o st h
handle_request-IsFiled sign fault Req.stat st h = h
handle_request-IsFiled sign fault (Req.audit o c l sh) st h = h
handle_request-IsFiled sign fault (Req.auth_challenge n) st h = h

Result-cases :
    {A : Type 0} (r : Result A) → ((e : ErrorKind) × (r ≡ err e)) ⊎ ((a : A) × (r ≡ ok a))
Result-cases (ok a) = inr (a, refl)
Result-cases (err e) = inl (e, refl)

continue-ok :
    {A B : Type 0} (r : Result (A × List ℕ)) (f : A → Reader B) {y : B × List ℕ}
    → continue r f ≡ ok y
    → (a : A) × (rest : List ℕ) × (r ≡ ok (a, rest)) × (f a rest ≡ ok y)
continue-ok (ok (a, rest)) f h = (a, rest, refl, h)
continue-ok (err e) f h = cc

read_body-hash :
    (header bs : List ℕ) (k : Key) (h : Hash) (s : Shard) (rest : List ℕ)
    → read_body header bs ≡ ok ((k, h, s), rest)
    → h ≡ shard_hash s
unfolding read_body pure ◌>>=◌
read_body-hash header bs k h s rest e =
    let cl = from_be_bytes (take 4 (drop 18 header)) in
    let pl = from_be_bytes (take 4 (drop 22 header)) in
    let key : Key =
      (from_be_bytes (take 8 (drop 8 header)), get_or header 16 0, get_or header 17 0) in
    let shard : List ℕ → List ℕ → Shard = λ cs ps. record { coeffs = cs; payload = ps } in
    let finish : List ℕ → List ℕ → Reader (Key × Hash × Shard) =
      λ cs ps. pure (key, shard_hash (shard cs ps), shard cs ps) in
    let (coeffs, more, _, e1) = continue-ok (read cl bs) (λ cs. read pl >>= finish cs) e in
    let (payload, last, _, e2) = continue-ok (read pl more) (finish coeffs) e1 in
    let same = ap (λ t. t.0) (ok_injective e2) in
    sym (ap (λ t. t.1) same) ∙ ap (λ t. shard_hash t.2) same

-- A shard that is read from a file comes with its own hash.
pub read_shard_file-hash :
    (contents : List ℕ) (k : Key) (h : Hash) (s : Shard)
    → read_shard_file contents ≡ ok (k, h, s)
    → h ≡ shard_hash s
unfolding read_shard_file run map_ok fail ◌>>=◌
read_shard_file-hash contents k h s e = elim (Result-cases (read 26 contents)) [
  | inl (bad, x) ↦ let e' = rw x at e in cc
  | inr ((header, more), x) ↦
      let e' = rw x at e in
      elim (Bool-cases (list_eq (take 8 header) shard_magic)) [
        | inl magic ↦
            let e'' = rw magic at e' in
            elim (Result-cases (read_body header more)) [
              | inl (bad, y) ↦ let e3 = rw y at e'' in cc
              | inr (((k', h', s'), rest), y) ↦
                  let e3 = ok_injective (rw y at e'') in
                  let same = read_body-hash header more k' h' s' rest y in
                  sym (ap (λ t. t.1) e3) ∙ same ∙ ap (λ t. shard_hash t.2) e3
            ]
        | inr other ↦ let e'' = rw other at e' in cc
      ]
]

index_file-AreFiled :
    (contents : List ℕ) (m : List (Key × Bucket))
    → AreFiled m
    → AreFiled (index_file (read_shard_file contents) m)
unfolding index_file
index_file-AreFiled contents m hm = elim (Result-cases (read_shard_file contents)) [
  | inl (bad, x) ↦ rw (x, index_file) hm
  | inr ((k, h, s), x) ↦
      rw (x, index_file)
        (subst (λ t. AreFiled (add k t s m)) (sym (read_shard_file-hash contents k h s x))
          (add-AreFiled k s m hm))
]

index_files-AreFiled :
    (d : Disk) (ps : List FilePath) (m : List (Key × Bucket))
    → AreFiled m
    → AreFiled (index_files d ps m)
unfolding index_files
index_files-AreFiled d [] m h = h
index_files-AreFiled d (p ∷ ps) m h = elim (Option-cases (find p d)) [
  | inl absent ↦ rw (absent, index_files) (index_files-AreFiled d ps m h)
  | inr (contents, there) ↦
      rw (there, index_files) (index_files-AreFiled d ps _ (index_file-AreFiled contents m h))
]

pub open_dir-IsFiled : (d : Disk) → IsFiled (open_dir d)
unfolding open_dir
open_dir-IsFiled d = record { filed = index_files-AreFiled d (walk_shard_files d) [] (tt, tt) }
