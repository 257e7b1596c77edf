-- ===== src/Merkle/Tests.antt =====
-- Runs of crates/holofs-core/src/merkle.rs, and instances of its theorems.
use holofs.Prelude.{◌≡◌, ◌⊎◌, ◌≢◌, refl, [], ◌∷◌, replicate, arith}
use holofs.Shard.{Shard}
use holofs.Sha256.{sha256}
use holofs.Merkle.{Hash, hash_pair, next_level, climb, merkle_root}
use holofs.Merkle.Binding.{Clash, hashed, merkle_root-binds}
use holofs.Merkle.ShardHash.{message, shard_hash-binds}

abbrev leaf_a : Hash
leaf_a = replicate 32 1

abbrev leaf_b : Hash
leaf_b = replicate 32 2

-- the single leaf is the root, and an odd level repeats its last hash
single : merkle_root (leaf_a ∷ []) ≡ leaf_a
unfolding merkle_root climb
single = refl

three :
    merkle_root (leaf_a ∷ leaf_b ∷ leaf_a ∷ [])
    ≡ hash_pair (hash_pair leaf_a leaf_b) (hash_pair leaf_a leaf_a)
unfolding merkle_root climb next_level
three = refl

merkle_root-binds_example :
    (leaf_a ∷ leaf_b ∷ [] ≡ leaf_a ∷ leaf_b ∷ [])
    ⊎ Clash (hashed 2 (leaf_a ∷ leaf_b ∷ [])) (hashed 2 (leaf_a ∷ leaf_b ∷ []))
merkle_root-binds_example =
    merkle_root-binds (leaf_a ∷ leaf_b ∷ []) (leaf_a ∷ leaf_b ∷ []) (refl, (refl, tt))
      (refl, (refl, tt)) refl refl

abbrev small_shard : Shard
small_shard = record { coeffs = 1 ∷ 0 ∷ []; payload = 7 ∷ 8 ∷ 9 ∷ [] }

shard_hash-binds_example :
    (small_shard ≡ small_shard)
    ⊎ ((message small_shard ≢ message small_shard)
        × (sha256 (message small_shard) ≡ sha256 (message small_shard)))
shard_hash-binds_example =
    shard_hash-binds small_shard small_shard
      (record { coeffs_fit = omega arith; payload_fits = omega arith })
      (record { coeffs_fit = omega arith; payload_fits = omega arith }) refl
