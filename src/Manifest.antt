-- ===== src/Manifest.antt =====
-- crates/holofs-model/src/manifest.rs: the object manifest. A `String` is the list of its bytes. The
-- binary format and the placement of shards are in the children.
pub mod Encode
pub mod Decode
pub mod RoundTrip
pub mod Truncated
pub mod Place
mod Tests
use holofs.Prelude.{ℕ, List, [], ◌∷◌, replicate}
use holofs.Placement.{Placement}

pub data ObjectKind : Type 0 where
  image text audio opaque directory : ObjectKind

pub record Manifest : Type 0 where
  pub object_id : ℕ
  pub k : ℕ
  pub nlayers : ℕ
  pub n_per_layer : List ℕ
  pub sym_len : List ℕ
  pub layer_positions : List (List ℕ)
  pub channels : ℕ
  pub width : ℕ
  pub height : ℕ
  pub levels : ℕ
  pub nodes : List (List ℕ)
  pub placement : Placement
  pub zones : List ℕ
  pub data_cid : List ℕ
  pub merkle_root : List ℕ
  pub shard_hashes : List (List (List (List ℕ)))
  pub kind : ObjectKind
  pub content_type : List ℕ
  pub chunk_lens : List ℕ
  pub audio_sample_rate : ℕ
  pub text_minhash : List ℕ

-- "inode/directory"
abbrev inode_directory : List ℕ
inode_directory =
    b'i' ∷ b'n' ∷ b'o' ∷ b'd' ∷ b'e' ∷ b'/' ∷ b'd' ∷ b'i' ∷ b'r' ∷ b'e' ∷ b'c' ∷ b't' ∷ b'o' ∷ b'r'
    ∷ b'y' ∷ []

-- `Manifest::directory`: the marker of a path prefix.
unfoldable pub directory_marker : ℕ → Manifest
directory_marker object_id = record {
  object_id = object_id;
  k = 0;
  nlayers = 0;
  n_per_layer = [];
  sym_len = [];
  layer_positions = [];
  channels = 0;
  width = 0;
  height = 0;
  levels = 0;
  nodes = [];
  placement = Placement.rendezvous;
  zones = [];
  data_cid = replicate 32 0;
  merkle_root = replicate 32 0;
  shard_hashes = [];
  kind = directory;
  content_type = inode_directory;
  chunk_lens = [];
  audio_sample_rate = 0;
  text_minhash = [];
}
