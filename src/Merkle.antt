-- ===== src/Merkle.antt =====
-- crates/holofs-core/src/merkle.rs: the hash of a shard and the root of a list of hashes.
pub mod Binding
pub mod ShardHash
mod Tests
use holofs.Prelude.{ℕ, zero, suc, ◌%◌, ◌^◌, List, [], ◌∷◌, ◌<>◌, length, replicate}
use holofs.Shard.{Shard}
use holofs.Codec.Bytes.{to_be_bytes}
use holofs.Sha256.{new, update, finalize, sha256}

-- "holofs-shard-v1\0"
abbrev pub tag_shard : List ℕ
tag_shard =
    b'h' ∷ b'o' ∷ b'l' ∷ b'o' ∷ b'f' ∷ b's' ∷ b'-' ∷ b's' ∷ b'h' ∷ b'a' ∷ b'r' ∷ b'd' ∷ b'-' ∷ b'v'
    ∷ b'1' ∷ 0 ∷ []

-- "holofs-merkle-v1\0"
abbrev pub tag_merkle : List ℕ
tag_merkle =
    b'h' ∷ b'o' ∷ b'l' ∷ b'o' ∷ b'f' ∷ b's' ∷ b'-' ∷ b'm' ∷ b'e' ∷ b'r' ∷ b'k' ∷ b'l' ∷ b'e' ∷ b'-'
    ∷ b'v' ∷ b'1' ∷ 0 ∷ []

-- A hash is the list of its bytes.
abbrev pub Hash : Type 0
Hash = List ℕ

unfoldable pub shard_hash : Shard → Hash
shard_hash shard =
    let s = update new tag_shard in
    let s = update s (to_be_bytes 2 (length shard.coeffs % 2 ^ 16)) in
    let s = update s (to_be_bytes 4 (length shard.payload % 2 ^ 32)) in
    let s = update s shard.coeffs in let s = update s shard.payload in finalize s

unfoldable pub hash_pair : Hash → Hash → Hash
hash_pair a b = sha256 (tag_merkle <> a <> b)

-- The loop over one level: pairs of neighbours, the last on its own with itself.
unfoldable pub next_level : List Hash → List Hash
next_level [] = []
next_level (a ∷ []) = hash_pair a a ∷ []
next_level (a ∷ b ∷ rest) = hash_pair a b ∷ next_level rest

-- The loop over the levels. Each has fewer hashes than the one before, so that the number of leaves is
-- enough fuel.
unfoldable pub climb : ℕ → List Hash → Hash
climb n [] = replicate 32 0
climb n (root ∷ []) = root
climb zero (a ∷ b ∷ rest) = a
climb (suc n) (a ∷ b ∷ rest) = climb n (next_level (a ∷ b ∷ rest))

unfoldable pub merkle_root : List Hash → Hash
merkle_root leaves = climb (length leaves) leaves
