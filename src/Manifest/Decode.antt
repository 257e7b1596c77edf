-- ===== src/Manifest/Decode.antt =====
-- `Manifest::decode` of crates/holofs-model/src/manifest.rs.
use holofs.Prelude.{ℕ, Bool, ◌||◌, List, [], ◌∷◌, ◌==◌, list_eq, if◌then◌else◌}
use holofs.Codec.Io.{Result, ok, err, invalid_data}
use holofs.Codec.Utf8.{from_utf8}
use holofs.Codec.Cursor.{Reader, pure, fail, lift, ◌>>=◌, take, u8, u16, u32, u64, repeat, run}
use holofs.Placement.{Placement, round_robin, rendezvous, rendezvous_zone_aware}
use holofs.Manifest.{ObjectKind, image, text, audio, opaque, directory, Manifest}
use holofs.Manifest.Encode.{magic}

-- "HOLOFSM6"
abbrev pub magic_legacy : List ℕ
magic_legacy = b'H' ∷ b'O' ∷ b'L' ∷ b'O' ∷ b'F' ∷ b'S' ∷ b'M' ∷ b'6' ∷ []

unfoldable pub placement_of : ℕ → Result Placement
placement_of b =
    if b == 0
    then ok round_robin
    else if b == 1
    then ok rendezvous
    else if b == 2
    then ok rendezvous_zone_aware
    else err invalid_data

unfoldable pub kind_of : ℕ → Result ObjectKind
kind_of b =
    if b == 0
    then ok image
    else if b == 1
    then ok text
    else if b == 2
    then ok audio
    else if b == 3
    then ok opaque
    else if b == 4
    then ok directory
    else err invalid_data

unfoldable pub decode_counted : Reader (List ℕ)
decode_counted = do n ← u32; repeat n u32

unfoldable pub decode_text : Reader (List ℕ)
decode_text = do n ← u16; bytes ← take n; lift (from_utf8 bytes)

unfoldable pub decode_hashes : Reader (List (List ℕ))
decode_hashes = do count ← u32; repeat count (take 32)

unfoldable pub check_magic : Reader Bool
check_magic = do
  found ← take 8
  if list_eq found magic || list_eq found magic_legacy then pure Bool.true else fail invalid_data

unfoldable pub decode_body : Reader Manifest
decode_body = do
  object_id ← u64
  k ← u16
  nlayers ← u8
  channels ← u8
  width ← u32
  height ← u32
  levels ← u8
  scheme ← u8
  placement ← lift (placement_of scheme)
  n_per_layer ← repeat nlayers u32
  sym_len ← repeat nlayers u32
  layer_positions ← repeat nlayers decode_counted
  nn ← u32
  nodes ← repeat nn decode_text
  zones ← take nn
  data_cid ← take 32
  merkle_root ← take 32
  shard_hashes ← repeat channels (repeat nlayers decode_hashes)
  tag ← u8
  kind ← lift (kind_of tag)
  content_type ← decode_text
  chunk_lens ← decode_counted
  audio_sample_rate ← u32
  text_minhash ← decode_counted
  pure (record {
    object_id = object_id;
    k = k;
    nlayers = nlayers;
    n_per_layer = n_per_layer;
    sym_len = sym_len;
    layer_positions = layer_positions;
    channels = channels;
    width = width;
    height = height;
    levels = levels;
    nodes = nodes;
    placement = placement;
    zones = zones;
    data_cid = data_cid;
    merkle_root = merkle_root;
    shard_hashes = shard_hashes;
    kind = kind;
    content_type = content_type;
    chunk_lens = chunk_lens;
    audio_sample_rate = audio_sample_rate;
    text_minhash = text_minhash;
  })

unfoldable pub read_manifest : Reader Manifest
read_manifest = do _ ← check_magic; decode_body

unfoldable pub decode : List ℕ → Result Manifest
decode buf = run read_manifest buf
