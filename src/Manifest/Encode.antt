-- ===== src/Manifest/Encode.antt =====
-- `Manifest::encode` of crates/holofs-model/src/manifest.rs.
use holofs.Prelude.{
  ℕ, ◌^◌, ◌%◌, ◌++◌, ◌<>◌, Bool, true, ◌&&◌, List, [], ◌∷◌, ◌==◌, if◌then◌else◌, Option, none, some,
  length, flat_map,
}
use holofs.Codec.Bytes.{to_be_bytes}
use holofs.Placement.{Placement, round_robin, rendezvous, rendezvous_zone_aware}
use holofs.Manifest.{ObjectKind, image, text, audio, opaque, directory, Manifest}

-- "HOLOFSM7"
abbrev pub magic : List ℕ
magic = b'H' ∷ b'O' ∷ b'L' ∷ b'O' ∷ b'F' ∷ b'S' ∷ b'M' ∷ b'7' ∷ []

unfoldable pub placement_byte : Placement → ℕ
placement_byte round_robin = 0
placement_byte rendezvous = 1
placement_byte rendezvous_zone_aware = 2

unfoldable pub kind_byte : ObjectKind → ℕ
kind_byte image = 0
kind_byte text = 1
kind_byte audio = 2
kind_byte opaque = 3
kind_byte directory = 4

unfoldable pub encode_u32s : List ℕ → List ℕ
encode_u32s xs = flat_map (to_be_bytes 4) xs

-- A length as `u32`, then the numbers.
unfoldable pub encode_counted : List ℕ → List ℕ
encode_counted xs = to_be_bytes 4 (length xs % 2 ^ 32) ++ encode_u32s xs

-- A length as `u16`, then the bytes of the text.
unfoldable pub encode_text : List ℕ → List ℕ
encode_text bytes = to_be_bytes 2 (length bytes % 2 ^ 16) ++ bytes

unfoldable pub encode_hashes : List (List ℕ) → List ℕ
encode_hashes per_layer = to_be_bytes 4 (length per_layer % 2 ^ 32) ++ flat_map (λ h. h) per_layer

unfoldable pub encode_channel : List (List (List ℕ)) → List ℕ
encode_channel per_channel = flat_map encode_hashes per_channel

-- The fields after the magic, in the order of the format.
unfoldable pub encode_body : Manifest → List ℕ
encode_body m =
    to_be_bytes 8 m.object_id
    <> to_be_bytes 2 m.k
    <> m.nlayers ∷ []
    <> m.channels ∷ []
    <> to_be_bytes 4 m.width
    <> to_be_bytes 4 m.height
    <> m.levels ∷ []
    <> placement_byte m.placement ∷ []
    <> encode_u32s m.n_per_layer
    <> encode_u32s m.sym_len
    <> flat_map encode_counted m.layer_positions
    <> to_be_bytes 4 (length m.nodes % 2 ^ 32)
    <> flat_map encode_text m.nodes
    <> m.zones
    <> m.data_cid
    <> m.merkle_root
    <> flat_map encode_channel m.shard_hashes
    <> kind_byte m.kind ∷ []
    <> encode_text m.content_type
    <> encode_counted m.chunk_lens
    <> to_be_bytes 4 m.audio_sample_rate
    <> encode_counted m.text_minhash

unfoldable pub all_lengths : ℕ → List (List (List (List ℕ))) → Bool
all_lengths n [] = true
all_lengths n (c ∷ cs) = length c == n && all_lengths n cs

-- The assertions of `encode`.
unfoldable pub asserts : Manifest → Bool
unfolding all_lengths
asserts m =
    length m.n_per_layer == m.nlayers
    && length m.sym_len == m.nlayers
    && length m.layer_positions == m.nlayers
    && length m.zones == length m.nodes
    && length m.shard_hashes == m.channels
    && all_lengths m.nlayers m.shard_hashes

-- `none` is a panic of an assertion.
unfoldable pub encode : Manifest → Option (List ℕ)
encode m = if asserts m then some (magic ++ encode_body m) else none
