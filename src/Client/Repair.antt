-- ===== src/Client/Repair.antt =====
-- `repair_node` of crates/holofs-client/src/client.rs: fresh shards for a node that was replaced. The manifest of a
-- repair that fails is not returned.
use mathlib.Core.Option
use holofs.Prelude.{
  ℕ, zero, suc, ◌+◌, ◌*◌, ◌%◌, ◌^◌, min, Bool, false, ◌||◌, List, [], ◌∷◌, ◌++◌, Option, none, some,
  length, get_elem?, get_or, set, take, leb, ◌==◌, if◌then◌else◌, flat_map,
}
use holofs.Shard.{Shard}
use holofs.Gf
use holofs.Rng.{Rng}
use holofs.Merkle.{Hash, shard_hash, merkle_root}
use holofs.Repair.{mix_donors}
use holofs.Manifest.{Manifest}
use holofs.Manifest.Place.{place_shard}
use holofs.Wire.Request as Req
use holofs.Client.{Network, Address, M, ◌>>=◌, ◌>>◌, pure, or_panic, assert, ask, command}
use holofs.Client.Gather.{expect_shards, contains, expected_hashes}

pub record RepairStats : Type 0 where
  pub bytes_downloaded : ℕ
  pub bytes_baseline_full : ℕ
  pub gf_muls_repair : ℕ
  pub gf_muls_baseline : ℕ
  pub shards_generated : ℕ
  pub layers_repaired : ℕ
  pub layers_unrecoverable : ℕ

abbrev pub no_stats : RepairStats
no_stats = record {
  bytes_downloaded = 0;
  bytes_baseline_full = 0;
  gf_muls_repair = 0;
  gf_muls_baseline = 0;
  shards_generated = 0;
  layers_repaired = 0;
  layers_unrecoverable = 0;
}

-- What the loop over the layers changes.
pub record Progress : Type 0 where
  pub manifest : Manifest
  pub rng : Rng
  pub stats : RepairStats

-- The number of shards from the index `idx` on, `n` of them, whose place is the replacement.
unfoldable pub needed : Manifest → List ℕ → ℕ → ℕ → ℕ → ℕ → ℕ → Option ℕ
needed m live channel layer replacement idx zero = some 0
needed m live channel layer replacement idx (suc n) =
    let rest = needed m live channel layer replacement (idx + 1) n in
    elim (place_shard m channel layer idx live) [
      | none ↦ none
      | some node ↦ Option.map (λ need. if node == replacement then suc need else need) rest
    ]

-- The loop over the shards of one node, which stops at `d` donors.
unfoldable pub take_donors : List Hash → ℕ → List Shard → List Shard → List Shard
take_donors expected d donors [] = donors
take_donors expected d donors (s ∷ v) =
    let donors' = if contains expected (shard_hash s) then donors ++ s ∷ [] else donors in
    let rest = take_donors expected d donors' v in if leb d (length donors') then donors' else rest

unfoldable pub other_nodes : ℕ → List ℕ → List ℕ
other_nodes replacement [] = []
other_nodes replacement (n ∷ live) =
    let later = other_nodes replacement live in if n == replacement then later else n ∷ later

abbrev pub contains_node : List ℕ → ℕ → Bool
contains_node [] n = false
contains_node (m ∷ ms) n = m == n || contains_node ms n

-- `manifest.shard_hashes[c][l].push(h)`, for each of `hashes`.
unfoldable pub push_hashes : Manifest → ℕ → ℕ → List Hash → Manifest
push_hashes m channel layer hashes =
    let per_channel = get_or m.shard_hashes channel [] in
    let old = get_or per_channel layer [] in
    record m { shard_hashes = set m.shard_hashes channel (set per_channel layer (old ++ hashes)) }

-- The counters of a repaired layer; the sums of `u64` wrap.
unfoldable pub count_repair : RepairStats → ℕ → ℕ → ℕ → ℕ → ℕ → RepairStats
count_repair stats k slen donors need generated = record {
  bytes_downloaded = (stats.bytes_downloaded + donors * (k + slen)) % 2 ^ 64;
  bytes_baseline_full = (stats.bytes_baseline_full + min k donors * (k + slen)) % 2 ^ 64;
  gf_muls_repair = (stats.gf_muls_repair + need * donors * (slen + k)) % 2 ^ 64;
  gf_muls_baseline =
      (stats.gf_muls_baseline + (k * (k + 1) * (slen + k) + need * k * slen)) % 2 ^ 64;
  shards_generated = stats.shards_generated + generated;
  layers_repaired = stats.layers_repaired + 1;
  layers_unrecoverable = stats.layers_unrecoverable;
}

abbrev pub unrecoverable : Progress → Progress
unrecoverable p = record p {
  stats = record p.stats { layers_unrecoverable = p.stats.layers_unrecoverable + 1 };
}

-- The channels and layers in the order of the two loops.
unfoldable pub layers_of : ℕ → ℕ → ℕ → List (ℕ × ℕ)
layers_of channel zero layer = []
layers_of channel (suc n) layer = (channel, layer) ∷ layers_of channel n (layer + 1)

unfoldable pub grid : ℕ → ℕ → ℕ → List (ℕ × ℕ)
grid channel zero nlayers = []
grid channel (suc n) nlayers = layers_of channel nlayers 0 ++ grid (channel + 1) n nlayers

module _ (net : Network) where
  -- The loop over the other live nodes.
  unfoldable pub donors_from :
      Manifest → ℕ → ℕ → List Hash → ℕ → List ℕ → List Shard → M net.World (List Shard)
  donors_from m channel layer expected d [] donors = pure donors
  donors_from m channel layer expected d (node ∷ others) donors = do
    addr ← or_panic (get_elem? m.nodes node)
    r ← ask net addr (Req.get m.object_id channel layer)
    v ← expect_shards net r
    let donors' = take_donors expected d donors v
    let rest = donors_from m channel layer expected d others donors'
    if leb d (length donors') then pure donors' else rest

  -- The loop over the fresh shards.
  unfoldable pub put_fresh : Address → ℕ → ℕ → ℕ → List Shard → M net.World (List Hash)
  put_fresh addr object_id channel layer [] = pure []
  put_fresh addr object_id channel layer (s ∷ fresh) = do
    command net addr (Req.put object_id channel layer s)
    hashes ← put_fresh addr object_id channel layer fresh
    pure (shard_hash s ∷ hashes)

  -- What is done with the donors of a layer.
  unfoldable pub mix_layer : Address → ℕ → ℕ → ℕ → ℕ → List Shard → Progress → M net.World Progress
  mix_layer addr d channel layer need [] p = pure (unrecoverable p)
  mix_layer addr d channel layer need (donor ∷ others) p = do
    let donors = take d (donor ∷ others)
    slen ← or_panic (get_elem? p.manifest.sym_len layer)
    let (rng', fresh) = mix_donors Gf.new donors need p.rng
    hashes ← put_fresh addr p.manifest.object_id channel layer fresh
    pure (record {
      manifest = push_hashes p.manifest channel layer hashes;
      rng = rng';
      stats = count_repair p.stats p.manifest.k slen (length donors) need (length hashes);
    })

  unfoldable pub fill_layer : Address → List ℕ → ℕ → ℕ → ℕ → ℕ → ℕ → Progress → M net.World Progress
  fill_layer addr live replacement d channel layer zero p = pure p
  fill_layer addr live replacement d channel layer (suc n) p = do
    expected ← or_panic (expected_hashes p.manifest channel layer)
    donors ← donors_from p.manifest channel layer expected d (other_nodes replacement live) []
    mix_layer addr d channel layer (suc n) donors p

  unfoldable pub repair_layers :
      Address → List ℕ → ℕ → ℕ → List (ℕ × ℕ) → Progress → M net.World Progress
  repair_layers addr live replacement d [] p = pure p
  repair_layers addr live replacement d ((channel, layer) ∷ rest) p = do
    n ← or_panic (get_elem? p.manifest.n_per_layer layer)
    need ← or_panic (needed p.manifest live channel layer replacement 0 n)
    p' ← fill_layer addr live replacement d channel layer need p
    repair_layers addr live replacement d rest p'

  unfoldable pub repair_node : Rng → Manifest → List ℕ → ℕ → ℕ → M net.World Progress
  repair_node rng m live replacement d = do
    assert (contains_node live replacement)
    addr ← or_panic (get_elem? m.nodes replacement)
    command net addr (Req.purge m.object_id)
    p ←
        repair_layers addr live replacement d (grid 0 m.channels m.nlayers)
          (record { manifest = m; rng = rng; stats = no_stats })
    let leaves = flat_map (λ per_c. flat_map (λ per_l. per_l) per_c) p.manifest.shard_hashes
    pure (record p { manifest = record p.manifest { merkle_root = merkle_root leaves } })
