-- ===== src/Storage.antt =====
-- `Store` of crates/holofs-storage/src/node_service.rs: the shards that a node holds, in memory and, if it has
-- a directory, in files.
pub mod HashMap
pub mod Files
pub mod Handler
pub mod Filed
pub mod View
pub mod Paths
pub mod Mirror
pub mod Removal
pub mod Purged
pub mod Durable
pub mod Restart
pub mod Crash
pub mod RoundTrip
mod Tests
pub mod Total
pub mod Refines
use holofs.Prelude.{
  ℕ, ◌+◌, ◌≡◌, ◌↔◌, Bool, true, false, ◌&&◌, List, [], ◌∷◌, ◌++◌, map, Option, none, some, length,
  ◌==◌, not, if◌then◌else◌, flat_map, arith,
}
use holofs.Prelude.{list_eq, list_eq_iff}
use holofs.Shard.{Shard}
use holofs.Codec.Io.{Result, ok, err}
use holofs.Merkle.{Hash, shard_hash}
use holofs.Storage.HashMap.{Keyed, find, insert, retain}
use holofs.Storage.Files.{
  Key, FilePath, path_keyed, Disk, shard_path, remove_file, write_shard_file, read_shard_file,
  walk_shard_files,
}

unfoldable pub key_beq : Key → Key → Bool
key_beq a b = a.0 == b.0 && (a.1 == b.1 && a.2 == b.2)

pub key_beq_iff : (a b : Key) → (key_beq a b ≡ true) ↔ (a ≡ b)
unfolding key_beq
key_beq_iff a b = ground arith

instance abbrev pub key_keyed : Keyed Key
key_keyed = record { beq = key_beq; beq_iff = key_beq_iff }

instance abbrev pub hash_keyed : Keyed Hash
hash_keyed = record { beq = list_eq; beq_iff = list_eq_iff }

abbrev pub Bucket : Type 0
Bucket = List (Hash × Shard)

pub record Store : Type 0 where
  pub shards : List (Key × Bucket)
  pub dir : Option Disk

-- `Store::new`
unfoldable pub new : Store
new = record { shards = []; dir = none }

-- `shards.entry(k).or_default()`
unfoldable pub bucket : Key → List (Key × Bucket) → Bucket
bucket k shards = elim (find k shards) [ none ↦ [] | some b ↦ b ]

abbrev pub is_some {ℓ} : {A : Type ℓ} → Option A → Bool
is_some none = false
is_some (some a) = true

-- The index with the shard in it.
unfoldable pub add : Key → Hash → Shard → List (Key × Bucket) → List (Key × Bucket)
add k h shard shards = insert k (insert h shard (bucket k shards)) shards

-- What is left to do when the file is written, or cannot be: the bucket stays as it is.
unfoldable pub finish_put : Key → Hash → Shard → Store → Disk × Bool → Store × Bool
finish_put k h shard st (d, true) =
    (record { shards = add k h shard st.shards; dir = some d }, true)
finish_put k h shard st (d, false) =
    (record { shards = insert k (bucket k st.shards) st.shards; dir = some d }, false)

-- `fault` is the failure of the file system, if any.
unfoldable pub put : Option ℕ → Key → Shard → Store → Store × Bool
put fault k shard st =
    let h = shard_hash shard in
    let b = bucket k st.shards in
    if is_some (find h b)
    then (record { shards = insert k b st.shards; dir = st.dir }, false)
    else (elim st.dir [
      | none ↦ (record { shards = add k h shard st.shards; dir = none }, true)
      | some d ↦ finish_put k h shard st (write_shard_file fault k h shard d)
    ])

unfoldable pub get : Key → Store → List Shard
get k st = map (λ e. e.1) (bucket k st.shards)

unfoldable pub get_by_hash : Key → Hash → Store → Option Shard
get_by_hash k h st = find h (bucket k st.shards)

-- The hashes of the buckets of one object.
unfoldable pub object_hashes : ℕ → List (Key × Bucket) → List Hash
object_hashes object_id [] = []
object_hashes object_id ((k, b) ∷ shards) =
    let later = object_hashes object_id shards in
    if k.0 == object_id then map (λ e. e.0) b ++ later else later

unfoldable pub remove_files : List Hash → Disk → Disk
remove_files [] d = d
remove_files (h ∷ hs) d = remove_files hs (remove_file (shard_path h) d)

unfoldable pub purge : ℕ → Store → Store × ℕ
purge object_id st =
    let removed_hashes = object_hashes object_id st.shards in
    (
      record {
        shards = retain (λ (k : Key). not (k.0 == object_id)) st.shards;
        dir = elim st.dir [ none ↦ none | some d ↦ some (remove_files removed_hashes d) ];
      },
      length removed_hashes,
    )

unfoldable pub total_in : List (Key × Bucket) → ℕ
total_in [] = 0
total_in ((k, b) ∷ shards) = length b + total_in shards

unfoldable pub total : Store → ℕ
total st = total_in st.shards

unfoldable pub wipe : Store → Store
wipe st = record { shards = []; dir = elim st.dir [ none ↦ none | some d ↦ some [] ] }

unfoldable pub inject_corrupt : Key → Shard → Store → Store
inject_corrupt k shard st = record {
  shards = add k (shard_hash shard) shard st.shards;
  dir = st.dir;
}

-- A broken file is skipped.
unfoldable pub index_file : Result (Key × Hash × Shard) → List (Key × Bucket) → List (Key × Bucket)
index_file (ok (k, h, shard)) shards = add k h shard shards
index_file (err e) shards = shards

unfoldable pub index_files : Disk → List FilePath → List (Key × Bucket) → List (Key × Bucket)
index_files d [] shards = shards
index_files d (p ∷ ps) shards = index_files d ps (elim (find p d) [
  | none ↦ shards
  | some contents ↦ index_file (read_shard_file contents) shards
])

unfoldable pub open_dir : Disk → Store
open_dir d = record { shards = index_files d (walk_shard_files d) []; dir = some d }
