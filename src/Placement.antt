-- ===== src/Placement.antt =====
-- crates/holofs-model/src/placement.rs: placing shards across nodes. A `u64` is a number below 2 ^ 64;
-- `none` is a panic.
pub mod BinarySearch
pub mod Rendezvous
pub mod RoundRobin
pub mod Zones
mod Tests
use holofs.Prelude.{
  ℕ, zero, suc, ◌+◌, ◌-◌, ◌*◌, ◌/◌, ◌%◌, ◌^◌, max, bit_or, bit_xor, Bool, true, false, not, List,
  [], ◌∷◌, Option, none, some, ltb, leb, ◌==◌, if◌then◌else◌, length, get_or, get_elem?, map,
}

pub data Placement : Type 0 where
  round_robin rendezvous rendezvous_zone_aware : Placement

pub record ShardKey : Type 0 where
  pub object_id : ℕ
  pub channel : ℕ
  pub layer : ℕ
  pub shard_idx : ℕ

abbrev u64 : ℕ → ℕ
u64 n = n % 2 ^ 64

-- SplitMix64.
unfoldable pub mix64 : ℕ → ℕ
mix64 seed =
    let a = u64 (seed + 0x9e37_79b9_7f4a_7c15) in
    let b = u64 (bit_xor a (a / 2 ^ 30) * 0xbf58_476d_1ce4_e5b9) in
    let c = u64 (bit_xor b (b / 2 ^ 27) * 0x94d0_49bb_1331_11eb) in bit_xor c (c / 2 ^ 31)

unfoldable pub rendezvous_hash : ShardKey → ℕ → ℕ
unfolding mix64
rendezvous_hash key node =
    let a = mix64 key.object_id in
    let b = bit_xor a (mix64 (u64 (node * 0x9e37_79b9_7f4a_7c15))) in
    let c =
      bit_xor b
        (mix64 (bit_or (bit_or (u64 (key.shard_idx * 2 ^ 16)) (key.channel * 2 ^ 8)) key.layer)) in
    mix64 c

-- The loop for the highest weight; of equal weights the later node wins.
unfoldable pub best_from : (ℕ → ℕ) → ℕ × ℕ → List ℕ → ℕ × ℕ
best_from h best [] = best
best_from h best (node ∷ nodes) =
    best_from h (if leb best.0 (h node) then (h node, node) else best) nodes

-- `slice::binary_search` of Rust's library, from `base` on with `size` elements left.
unfoldable pub search_from : ℕ → List ℕ → ℕ → ℕ → ℕ → ℕ
search_from zero xs x base size = base
search_from (suc fuel) xs x base size =
    let half = size / 2 in
    let mid = base + half in
    let next =
      search_from fuel xs x (if ltb x (get_or xs mid 0) then base else mid) (size - half) in
    if ltb 1 size then next else base

unfoldable pub binary_search_ok : List ℕ → ℕ → Bool
binary_search_ok [] x = false
binary_search_ok (y ∷ ys) x =
    let xs = y ∷ ys in get_or xs (search_from (length xs) xs x 0 (length xs)) 0 == x

-- The steps forward to the nearest live node from offset `off` on, `n` of them left.
unfoldable pub step_forward : List ℕ → ℕ → ℕ → ℕ → ℕ → Option ℕ
step_forward live pos total off zero = none
step_forward live pos total off (suc n) =
    let later = step_forward live pos total (off + 1) n in
    let cand = (pos + off) % total in if binary_search_ok live cand then some cand else later

unfoldable pub start_position : ShardKey → ℕ → ℕ
unfolding mix64
start_position key total_nodes =
    let seed = mix64 (bit_xor (bit_xor key.object_id (key.channel * 2 ^ 16)) (key.layer * 2 ^ 8)) in
    u64 (seed + key.shard_idx) % total_nodes

unfoldable pub round_robin_place : ShardKey → ℕ → List ℕ → Option ℕ
unfolding start_position
round_robin_place key total_nodes live_nodes =
    if total_nodes == 0
    then none
    else step_forward live_nodes (start_position key total_nodes) total_nodes 0 total_nodes

unfoldable pub rendezvous_place : ShardKey → List ℕ → Option ℕ
rendezvous_place key [] = none
rendezvous_place key (first ∷ rest) =
    some (best_from (rendezvous_hash key) (0, first) (first ∷ rest)).1

unfoldable pub place : Placement → ShardKey → ℕ → List ℕ → Option ℕ
place scheme key total_nodes [] = none
place round_robin key total_nodes (first ∷ rest) = round_robin_place key total_nodes (first ∷ rest)
place rendezvous key total_nodes (first ∷ rest) = rendezvous_place key (first ∷ rest)
place rendezvous_zone_aware key total_nodes (first ∷ rest) = rendezvous_place key (first ∷ rest)
