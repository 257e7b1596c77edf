-- ===== src/Client/Gather.antt =====
-- `gather_layer` of crates/holofs-client/src/client.rs, the verification of shards against the manifest, and the
-- loop that the puts share.
use holofs.Prelude.{
  ℕ, ◌+◌, ◌%◌, ◌^◌, Bool, false, ◌||◌, List, [], ◌∷◌, ◌++◌, Option, none, some, get_elem?, list_eq,
  if◌then◌else◌,
}
use holofs.Shard.{Shard}
use holofs.Merkle.{Hash, shard_hash}
use holofs.Manifest.{Manifest}
use holofs.Manifest.Place.{place_shard}
use holofs.Wire.Request as Req
use holofs.Wire.Response as Resp
use holofs.Wire.Response.{Response}
use holofs.Client.{Network, M, ◌>>=◌, ◌>>◌, pure, fail, or_panic, protocol, ask, command}

module _ (net : Network) where
  unfoldable pub expect_shards : Response → M net.World (List Shard)
  expect_shards (Resp.shards v) = pure v
  expect_shards other = fail protocol

  unfoldable pub gather_from : Manifest → ℕ → ℕ → List ℕ → M net.World (List Shard)
  gather_from m channel layer [] = pure []
  gather_from m channel layer (node ∷ live) = do
    addr ← or_panic (get_elem? m.nodes node)
    r ← ask net addr (Req.get m.object_id channel layer)
    v ← expect_shards r
    rest ← gather_from m channel layer live
    pure (v ++ rest)

  unfoldable pub gather_layer : Manifest → List ℕ → ℕ → ℕ → M net.World (List Shard)
  gather_layer m live channel layer = gather_from m channel layer live

unfoldable pub contains : List Hash → Hash → Bool
contains [] h = false
contains (g ∷ gs) h = list_eq g h || contains gs h

-- `raw.into_iter().filter(|s| expected.contains(&shard_hash(s)))`
unfoldable pub verified : List Hash → List Shard → List Shard
verified expected [] = []
verified expected (s ∷ raw) =
    let later = verified expected raw in
    if contains expected (shard_hash s) then s ∷ later else later

-- `manifest.shard_hashes[c][l]`
unfoldable pub expected_hashes : Manifest → ℕ → ℕ → Option (List Hash)
expected_hashes m channel layer = elim (get_elem? m.shard_hashes channel) [
  | none ↦ none
  | some per_layer ↦ get_elem? per_layer layer
]

module _ (net : Network) where
  -- The loop over the shards of a layer, from the index `idx` on: each goes to the node of its place.
  unfoldable pub send_shards : Manifest → List ℕ → ℕ → ℕ → ℕ → List Shard → M net.World (List Hash)
  send_shards m live channel layer idx [] = pure []
  send_shards m live channel layer idx (shard ∷ shards) = do
    node ← or_panic (place_shard m channel layer (idx % 2 ^ 32) live)
    addr ← or_panic (get_elem? m.nodes node)
    command net addr (Req.put m.object_id channel layer shard)
    hashes ← send_shards m live channel layer (idx + 1) shards
    pure (shard_hash shard ∷ hashes)
