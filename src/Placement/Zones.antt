-- ===== src/Placement/Zones.antt =====
-- `place_layer_zone_aware` of crates/holofs-model/src/placement.rs. `none` is a panic; the sum of `u32`
-- wraps.
use mathlib.Core.Option
use holofs.Prelude.{
  ℕ, zero, suc, ◌+◌, ◌-◌, ◌/◌, ◌%◌, ◌^◌, max, List, [], ◌∷◌, Option, none, some, ltb, leb, ◌==◌,
  if◌then◌else◌, length, get_elem?, get_or,
}
use holofs.Placement.{rendezvous_hash}

-- The zones of the live nodes.
unfoldable pub zones_of : List ℕ → List ℕ → Option (List ℕ)
zones_of zones [] = some []
zones_of zones (n ∷ ns) =
    let rest = zones_of zones ns in
    elim (get_elem? zones n) [ none ↦ none | some z ↦ Option.map (λ zs. z ∷ zs) rest ]

unfoldable pub insert_zone : ℕ → List ℕ → List ℕ
insert_zone z [] = z ∷ []
insert_zone z (y ∷ ys) = let rest = insert_zone z ys in if leb z y then z ∷ y ∷ ys else y ∷ rest

-- `sort` on zones.
unfoldable pub sort_zones : List ℕ → List ℕ
sort_zones [] = []
sort_zones (z ∷ zs) = insert_zone z (sort_zones zs)

-- `dedup`: of equal neighbours one is kept; `prev` is the last one kept.
unfoldable pub dedup_after : ℕ → List ℕ → List ℕ
dedup_after prev [] = []
dedup_after prev (z ∷ zs) = let rest = dedup_after z zs in if z == prev then rest else z ∷ rest

unfoldable pub dedup : List ℕ → List ℕ
dedup [] = []
dedup (z ∷ zs) = z ∷ dedup_after z zs

-- `ceil(n / z)`, with the wrapping sum of `u32`.
unfoldable pub quota : ℕ → ℕ → ℕ
quota n_shards num_live_zones = (n_shards + num_live_zones - 1) % 2 ^ 32 / num_live_zones

-- `sort_by` with the scores descending; it is stable.
unfoldable pub insert_scored : (ℕ → ℕ) → ℕ → List ℕ → List ℕ
insert_scored score n [] = n ∷ []
insert_scored score n (m ∷ ms) =
    let rest = insert_scored score n ms in if leb (score m) (score n) then n ∷ m ∷ ms else m ∷ rest

unfoldable pub sort_scored : (ℕ → ℕ) → List ℕ → List ℕ
sort_scored score [] = []
sort_scored score (n ∷ ns) = insert_scored score n (sort_scored score ns)

-- The map from zones to the number of their shards; a zone that is missing has none.
unfoldable pub used_in : ℕ → List (ℕ × ℕ) → ℕ
used_in zone [] = 0
used_in zone ((z, n) ∷ rest) = let later = used_in zone rest in if z == zone then n else later

unfoldable pub count_up : ℕ → List (ℕ × ℕ) → List (ℕ × ℕ)
count_up zone [] = (zone, 1) ∷ []
count_up zone ((z, n) ∷ rest) =
    let later = count_up zone rest in if z == zone then (z, n + 1) ∷ rest else (z, n) ∷ later

-- The first node whose zone is still below the quota; `otherwise` if there is none.
unfoldable pub pick : List ℕ → List (ℕ × ℕ) → ℕ → ℕ → List ℕ → ℕ
pick zones zone_used limit otherwise [] = otherwise
pick zones zone_used limit otherwise (node ∷ nodes) =
    let later = pick zones zone_used limit otherwise nodes in
    if ltb (used_in (get_or zones node 0) zone_used) limit then node else later

-- The loop over the shards from `idx` on, `n` of them.
unfoldable pub layout_from : (ℕ → ℕ → ℕ) → List ℕ → List ℕ → ℕ → List (ℕ × ℕ) → ℕ → ℕ → List ℕ
layout_from score live zones limit zone_used idx zero = []
layout_from score live zones limit zone_used idx (suc n) =
    let scored = sort_scored (score idx) live in
    let node = pick zones zone_used limit (get_or scored 0 0) scored in
    node ∷ layout_from score live zones limit (count_up (get_or zones node 0) zone_used) (idx + 1) n

-- The weight of a node for the shard `idx` of a layer.
unfoldable pub layer_score : ℕ → ℕ → ℕ → ℕ → ℕ → ℕ
layer_score object_id channel layer idx node =
    rendezvous_hash
      (record { object_id = object_id; channel = channel; layer = layer; shard_idx = idx }) node

unfoldable pub place_layer_zone_aware : ℕ → ℕ → ℕ → ℕ → ℕ → List ℕ → List ℕ → Option (List ℕ)
place_layer_zone_aware object_id channel layer n_shards total_nodes [] zones = none
place_layer_zone_aware object_id channel layer n_shards total_nodes (first ∷ rest) zones =
    let live = first ∷ rest in
    if length zones == total_nodes
    then (elim (zones_of zones live) [
      | none ↦ none
      | some live_zones ↦
          let num_live_zones = max (length (dedup (sort_zones live_zones))) 1 in
          some (
            layout_from (layer_score object_id channel layer) live zones
              (quota n_shards num_live_zones) [] 0 n_shards)
    ])
    else none
