-- ===== src/Manifest/Place.antt =====
-- `Manifest::place_shard` of crates/holofs-model/src/manifest.rs. `none` is a panic.
use holofs.Prelude.{ℕ, List, Option, none, some, length, get_elem?}
use holofs.Placement.{Placement, round_robin, rendezvous, rendezvous_zone_aware, ShardKey, place}
use holofs.Placement.Zones.{place_layer_zone_aware}
use holofs.Manifest.{Manifest}

abbrev pub shard_key : Manifest → ℕ → ℕ → ℕ → ShardKey
shard_key m channel layer shard_idx = record {
  object_id = m.object_id;
  channel = channel;
  layer = layer;
  shard_idx = shard_idx;
}

abbrev zone_aware : Manifest → ℕ → ℕ → ℕ → List ℕ → Option ℕ
zone_aware m channel layer shard_idx live = elim (get_elem? m.n_per_layer layer) [
  | none ↦ none
  | some n ↦
      elim (place_layer_zone_aware m.object_id channel layer n (length m.nodes) live m.zones) [
        | none ↦ none
        | some layout ↦ get_elem? layout shard_idx
      ]
]

abbrev pub by_scheme : Placement → Option ℕ → Option ℕ → Option ℕ
by_scheme round_robin plain zoned = plain
by_scheme rendezvous plain zoned = plain
by_scheme rendezvous_zone_aware plain zoned = zoned

unfoldable pub place_shard : Manifest → ℕ → ℕ → ℕ → List ℕ → Option ℕ
place_shard m channel layer shard_idx live =
    by_scheme m.placement
      (place m.placement (shard_key m channel layer shard_idx) (length m.nodes) live)
      (zone_aware m channel layer shard_idx live)
