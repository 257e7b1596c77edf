-- ===== src/Manifest/Tests.antt =====
-- Tests and instances of the theorems on crates/holofs-model/src/manifest.rs.
use holofs.Prelude.{ℕ, ◌≡◌, refl, List, [], ◌∷◌, ◌++◌, some, arith, replicate, cons_ne_nil}
use holofs.Codec.Io.{ok, err, unexpected_eof}
use holofs.Codec.Utf8.{is_utf8}
use holofs.Placement.{Placement}
use holofs.Manifest.{ObjectKind, Manifest, directory_marker}
use holofs.Manifest.Encode.{encode_body, asserts, encode}
use holofs.Manifest.Decode.{decode}
use holofs.Manifest.Truncated.{manifest_truncated}
use holofs.Manifest.RoundTrip.{InRange, marker-InRange, manifest_round_trip}

abbrev sample : Manifest
sample = record {
  object_id = 0xc0ffeebabe;
  k = 16;
  nlayers = 2;
  n_per_layer = 64 ∷ 40 ∷ [];
  sym_len = 4096 ∷ 12288 ∷ [];
  layer_positions = (0 ∷ 1 ∷ []) ∷ (10 ∷ []) ∷ [];
  channels = 1;
  width = 256;
  height = 256;
  levels = 3;
  nodes = (b'a' ∷ b':' ∷ b'1' ∷ []) ∷ (0xd1 ∷ 0x8f ∷ []) ∷ [];
  placement = Placement.rendezvous_zone_aware;
  zones = 0 ∷ 1 ∷ [];
  data_cid = replicate 32 0xab;
  merkle_root = replicate 32 0xcd;
  shard_hashes = (((replicate 32 7) ∷ []) ∷ [] ∷ []) ∷ [];
  kind = ObjectKind.text;
  content_type = b't' ∷ b'/' ∷ b'p' ∷ [];
  chunk_lens = 100 ∷ 90 ∷ [];
  audio_sample_rate = 0;
  text_minhash = [];
}

sample-InRange : InRange sample
unfolding is_utf8
sample-InRange = record {
  object_id = omega arith;
  k = omega arith;
  width = omega arith;
  height = omega arith;
  n_per_layer = omega arith;
  sym_len = omega arith;
  layer_positions = omega arith;
  nodes = (omega arith, ((omega arith, refl), ((omega arith, refl), tt)));
  zones = refl;
  data_cid = refl;
  merkle_root = refl;
  shard_hashes = (refl, ((refl, ((omega arith, (refl, tt)), ((omega arith, tt), tt))), tt));
  content_type = (omega arith, refl);
  chunk_lens = omega arith;
  audio_sample_rate = omega arith;
  text_minhash = omega arith;
}

manifest_round_trip_example :
    (bytes : List ℕ) × (encode sample ≡ some bytes) × (decode bytes ≡ ok sample)
manifest_round_trip_example = manifest_round_trip sample sample-InRange

marker_bytes :
    encode (directory_marker 7)
    ≡ some (
        (b'H' ∷ b'O' ∷ b'L' ∷ b'O' ∷ b'F' ∷ b'S' ∷ b'M' ∷ [])
        ++ b'7' ∷ encode_body (directory_marker 7))
unfolding encode asserts directory_marker
marker_bytes = refl

manifest_truncated_example :
    decode (b'H' ∷ b'O' ∷ b'L' ∷ b'O' ∷ b'F' ∷ b'S' ∷ b'M' ∷ []) ≡ err unexpected_eof
manifest_truncated_example =
    manifest_truncated (directory_marker 7) (b'H' ∷ b'O' ∷ b'L' ∷ b'O' ∷ b'F' ∷ b'S' ∷ b'M' ∷ [])
      (b'7' ∷ encode_body (directory_marker 7)) (marker-InRange 7 (omega arith)) marker_bytes
      (cons_ne_nil _ _)
