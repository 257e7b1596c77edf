-- ===== src/Storage/Restart.antt =====
-- `Store::open` of crates/holofs-storage/src/node_service.rs on the directory of a node that was stopped.
use holofs.Prelude.{
  ℕ, ◌≡◌, inl, inr, refl, sym, ap, ◌∙◌, subst, true, Bool-cases, Option-cases, List, [], ◌∷◌, some,
  some_cancel, In, All,
}
use holofs.Shard.{Shard}
use holofs.Codec.Io.{ok}
use holofs.Merkle.{Hash}
use holofs.Storage.HashMap.{find}
use holofs.Storage.Files.{
  Key, FilePath, path_keyed, path_beq, path_beq_iff, Disk, shard_path, file_bytes, read_shard_file,
  is_shard_file, walk_shard_files,
}
use holofs.Storage.{
  key_keyed, hash_keyed, Bucket, Store, bucket, add, get_by_hash, index_file, index_files, open_dir,
}
use holofs.Storage.Handler.{Schedule, handle_request, handle_all}
use holofs.Storage.Filed.{open_dir-IsFiled}
use holofs.Storage.View.{same_place, same_place_sound, same_place_self, find-add}
use holofs.Storage.RoundTrip.{read_shard_file-file_bytes}
use holofs.Storage.Paths.{shard_path-is_shard_file}
use holofs.Storage.Refines.{Contents, contents}
use holofs.Storage.Mirror.{HasFile, Mirrors, stored-IsHash}
use holofs.Storage.Durable.{IsDurable, IsHomed, handle_request-IsDurable}

In-walk :
    (p : FilePath) (bytes : List ℕ) (d : Disk)
    → find p d ≡ some bytes
    → is_shard_file p ≡ true
    → In p (walk_shard_files d)
unfolding find walk_shard_files
In-walk p bytes [] e named = cc
In-walk p bytes ((q, c) ∷ d) e named = elim (Bool-cases (path_beq q p)) [
  | inl t ↦
      let same = (path_beq_iff q p).0 t in
      let named' : is_shard_file q ≡ true = ap is_shard_file same ∙ named in rw named' (inl same)
  | inr f ↦
      let later = In-walk p bytes d (rw f at e) named in
      elim (Bool-cases (is_shard_file q)) [ inl t ↦ rw t (inr later) | inr g ↦ rw g later ]
]

walk-All : (d : Disk) → All (λ p. is_shard_file p ≡ true) (walk_shard_files d)
unfolding walk_shard_files
walk-All [] = tt
walk-All ((q, c) ∷ d) = elim (Bool-cases (is_shard_file q)) [
  | inl t ↦ rw t (t, walk-All d)
  | inr f ↦ rw f (walk-All d)
]

module _ (home : Hash → Key) (c : Contents) (d : Disk) (m : Mirrors home c d) where
  -- Every indexed shard is a stored one.
  abbrev Within : List (Key × Bucket) → Type 0
  Within shards =
      (j : Key) (g : Hash) (t : Shard) → find g (bucket j shards) ≡ some t → c j g ≡ some t

  abbrev Has : Key → Hash → List (Key × Bucket) → Type 0
  Has k h shards = (t : Shard) × (find h (bucket k shards) ≡ some t)

  -- A file is read as the shard that was written to it.
  read_file :
      (p : FilePath) (bytes : List ℕ) (file : HasFile c p bytes)
      → read_shard_file bytes ≡ ok (file.k, file.h, file.s)
  read_file p bytes file =
      ap read_shard_file file.contents
      ∙ read_shard_file-file_bytes file.k file.s (m.fits file.k file.h file.s file.stored)
      ∙ ap (λ h. ok (file.k, h, file.s)) (sym (m.named file.k file.h file.s file.stored))

  index_one :
      (p : FilePath) (bytes : List ℕ) (file : HasFile c p bytes) (shards : List (Key × Bucket))
      → index_file (read_shard_file bytes) shards ≡ add file.k file.h file.s shards
  unfolding index_file
  index_one p bytes file shards = rw (read_file p bytes file, index_file) refl

  add-Within :
      (k : Key) (h : Hash) (s : Shard) (shards : List (Key × Bucket))
      → c k h ≡ some s
      → Within shards
      → Within (add k h s shards)
  add-Within k h s shards stored within j g t e =
      let e' = sym (find-add j k g h s shards) ∙ e in
      elim (Bool-cases (same_place k h j g)) [
        | inl at ↦
            let (a, b) = same_place_sound k j h g at in
            let x = some_cancel (rw at at e') in
            subst (λ (r : Key × Hash × Shard). c r.0 r.1 ≡ some r.2) (λ i. (a i, b i, x i)) stored
        | inr away ↦ within j g t (rw away at e')
      ]

  add-Has :
      (k j : Key) (h g : Hash) (s : Shard) (shards : List (Key × Bucket))
      → Has j g shards
      → Has j g (add k h s shards)
  add-Has k j h g s shards (t, e) = elim (Bool-cases (same_place k h j g)) [
    | inl at ↦ (s, find-add j k g h s shards ∙ rw at refl)
    | inr away ↦ (t, find-add j k g h s shards ∙ rw away e)
  ]

  add-Has_self :
      (k : Key) (h : Hash) (s : Shard) (shards : List (Key × Bucket)) → Has k h (add k h s shards)
  add-Has_self k h s shards = (s, find-add k k h h s shards ∙ rw (same_place_self k h) refl)

  index_files-Within :
      (ps : List FilePath) (shards : List (Key × Bucket))
      → All (λ p. is_shard_file p ≡ true) ps
      → Within shards
      → Within (index_files d ps shards)
  unfolding index_files
  index_files-Within [] shards named within = within
  index_files-Within (p ∷ ps) shards named within = elim (Option-cases (find p d)) [
    | inl absent ↦ rw (absent, index_files) (index_files-Within ps shards named.1 within)
    | inr (bytes, there) ↦
        let file = m.no_more p bytes named.0 there in
        rw (there, index_files)
          (index_files-Within ps _ named.1 (
            subst Within (sym (index_one p bytes file shards))
              (add-Within file.k file.h file.s shards file.stored within)))
  ]

  nothing-Within : Within []
  unfolding bucket find
  nothing-Within j g t e = cc

  index_files-Has :
      (ps : List FilePath) (shards : List (Key × Bucket)) (k : Key) (h : Hash)
      → All (λ p. is_shard_file p ≡ true) ps
      → Has k h shards
      → Has k h (index_files d ps shards)
  unfolding index_files
  index_files-Has [] shards k h named has = has
  index_files-Has (p ∷ ps) shards k h named has = elim (Option-cases (find p d)) [
    | inl absent ↦ rw (absent, index_files) (index_files-Has ps shards k h named.1 has)
    | inr (bytes, there) ↦
        let file = m.no_more p bytes named.0 there in
        rw (there, index_files)
          (index_files-Has ps _ k h named.1 (
            subst (Has k h) (sym (index_one p bytes file shards))
              (add-Has file.k k file.h h file.s shards has)))
  ]

  index_files-In :
      (ps : List FilePath) (shards : List (Key × Bucket)) (k : Key) (h : Hash) (s : Shard)
      → All (λ p. is_shard_file p ≡ true) ps
      → c k h ≡ some s
      → In (shard_path h) ps
      → Has k h (index_files d ps shards)
  unfolding index_files
  index_files-In (p ∷ ps) shards k h s named stored (inl e) =
      let bytes = file_bytes k s in
      let there : find p d ≡ some bytes = ap (λ q. find q d) e ∙ m.kept k h s stored in
      let file : HasFile c p bytes = record {
        k = k;
        h = h;
        s = s;
        stored = stored;
        path = e;
        contents = refl;
      } in
      rw (there, index_files)
        (index_files-Has ps _ k h named.1
          (subst (Has k h) (sym (index_one p bytes file shards)) (add-Has_self k h s shards)))
  index_files-In (p ∷ ps) shards k h s named stored (inr i) = elim (Option-cases (find p d)) [
    | inl absent ↦ rw (absent, index_files) (index_files-In ps shards k h s named.1 stored i)
    | inr (bytes, there) ↦ rw (there, index_files) (index_files-In ps _ k h s named.1 stored i)
  ]
  index_files-In [] shards k h s named stored i = absurd i

  -- A node that is opened on the directory has the shards whose files are in it.
  pub contents-open_dir : (k : Key) (h : Hash) → contents (open_dir d) k h ≡ c k h
  unfolding open_dir get_by_hash
  contents-open_dir k h =
      let ps = walk_shard_files d in
      let within = index_files-Within ps [] (walk-All d) nothing-Within in
      elim (Option-cases (c k h)) [
        | inr (s, stored) ↦
            let file = m.kept k h s stored in
            let named = shard_path-is_shard_file h (stored-IsHash home c c d d m k h s stored) in
            let (t, e) =
              index_files-In ps [] k h s (walk-All d) stored
                (In-walk (shard_path h) _ d file named) in
            e ∙ sym (within k h t e)
        | inl absent ↦ elim (Option-cases (find h (bucket k (index_files d ps [])))) [
          | inl none_there ↦ none_there ∙ sym absent
          | inr (t, e) ↦ let bad = sym absent ∙ within k h t e in cc
        ]
      ]

pub handle_all-IsDurable :
    (sign : List ℕ → List ℕ) (home : Hash → Key) (reqs : Schedule) (st : Store)
    → All (λ r. IsHomed home r.1) reqs
    → IsDurable home st
    → IsDurable home (handle_all sign reqs st).0
unfolding handle_all
handle_all-IsDurable sign home [] st homed h = h
handle_all-IsDurable sign home ((fault, req) ∷ reqs) st homed h =
    handle_all-IsDurable sign home reqs (handle_request sign fault req st).0 homed.1
      (handle_request-IsDurable sign home fault req st homed.0 h)

-- A node that is opened on an empty directory.
pub empty-IsDurable : (home : Hash → Key) → IsDurable home (open_dir [])
unfolding open_dir get_by_hash index_files walk_shard_files bucket find
empty-IsDurable home = record {
  filed = open_dir-IsFiled [];
  disk = [];
  persistent = refl;
  mirrors = record {
    named = λ k h s e. cc;
    fits = λ k h s e. cc;
    homed = λ k h s e. cc;
    kept = λ k h s e. cc;
    no_more = λ p bytes named e. cc;
  };
}

-- Durability: a node starts on an empty directory, serves any sequence of requests under any faults of the
-- file system on its writes, and stops. A node that is opened on the directory it leaves looks up the same shards
-- under the same keys and hashes. The puts must fit the files, and no shard may be put under two keys: `home`
-- says which key a hash belongs to.
pub open_dir-handle_all :
    (sign : List ℕ → List ℕ) (home : Hash → Key) (reqs : Schedule)
    → All (λ r. IsHomed home r.1) reqs
    → let st = (handle_all sign reqs (open_dir [])).0 in
      (d : Disk) × (st.dir ≡ some d)
      × ((k : Key) (h : Hash) → get_by_hash k h (open_dir d) ≡ get_by_hash k h st)
open_dir-handle_all sign home reqs homed =
    let st = (handle_all sign reqs (open_dir [])).0 in
    let h = handle_all-IsDurable sign home reqs (open_dir []) homed (empty-IsDurable home) in
    (h.disk, h.persistent, contents-open_dir home (contents st) h.disk h.mirrors)
