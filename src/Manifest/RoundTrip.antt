-- ===== src/Manifest/RoundTrip.antt =====
-- Decoding a manifest undoes encoding it, under the present and the previous magic.
use native.Mathlib.Nat.{mod-eq_of_lt}
use holofs.Prelude.{
  ℕ, ◌<◌, ◌^◌, ◌++◌, ◌≡◌, refl, true, List, [], ◌∷◌, length, arith, All, flat_map, some, list_eq,
}
use holofs.Codec.Io.{ok}
use holofs.Codec.Bytes.{to_be_bytes}
use holofs.Codec.Utf8.{is_utf8, from_utf8-valid}
use holofs.Codec.Cursor.{u32, take, repeat}
use holofs.Codec.Reads.{
  Reads, Reads-bind, Reads-last, Reads-pure, Reads-lift, Reads-take, Reads-u8, Reads-u16, Reads-u32,
  Reads-u32_cast, Reads-u64, Reads-repeat, Reads-repeat_n, Reads-run,
}
use holofs.Placement.{Placement}
use holofs.Manifest.{ObjectKind, Manifest, directory_marker}
use holofs.Manifest.Encode.{
  magic, placement_byte, kind_byte, encode_u32s, encode_counted, encode_text, encode_hashes,
  encode_channel, encode_body, all_lengths, asserts, encode,
}
use holofs.Manifest.Decode.{
  magic_legacy, placement_of, kind_of, decode_counted, decode_text, decode_hashes, check_magic,
  decode_body, read_manifest, decode,
}

abbrev pub IsU32 : ℕ → Type 0
IsU32 n = n < 2 ^ 32

abbrev pub CountedInRange : List ℕ → Type 0
CountedInRange xs = (length xs < 2 ^ 32) × All IsU32 xs

abbrev pub TextInRange : List ℕ → Type 0
TextInRange bytes = (length bytes < 2 ^ 16) × (is_utf8 bytes ≡ true)

abbrev pub HashesInRange : List (List ℕ) → Type 0
HashesInRange hs = (length hs < 2 ^ 32) × All (λ h. length h ≡ 32) hs

-- The numbers are in the ranges of their Rust types, the texts are UTF-8, the lengths fit their
-- length fields, and the lists have the lengths that `encode` asserts.
pub record InRange (m : Manifest) : Type 0 where
  pub object_id : m.object_id < 2 ^ 64
  pub k : m.k < 2 ^ 16
  pub width : IsU32 m.width
  pub height : IsU32 m.height
  pub n_per_layer : (length m.n_per_layer ≡ m.nlayers) × All IsU32 m.n_per_layer
  pub sym_len : (length m.sym_len ≡ m.nlayers) × All IsU32 m.sym_len
  pub layer_positions :
      (length m.layer_positions ≡ m.nlayers) × All CountedInRange m.layer_positions
  pub nodes : (length m.nodes < 2 ^ 32) × All TextInRange m.nodes
  pub zones : length m.zones ≡ length m.nodes
  pub data_cid : length m.data_cid ≡ 32
  pub merkle_root : length m.merkle_root ≡ 32
  pub shard_hashes :
      (length m.shard_hashes ≡ m.channels)
      × All (λ c. (length c ≡ m.nlayers) × All HashesInRange c) m.shard_hashes
  pub content_type : TextInRange m.content_type
  pub chunk_lens : CountedInRange m.chunk_lens
  pub audio_sample_rate : IsU32 m.audio_sample_rate
  pub text_minhash : CountedInRange m.text_minhash

pub marker-InRange : (id : ℕ) → id < 2 ^ 64 → InRange (directory_marker id)
unfolding is_utf8 directory_marker
marker-InRange id h = record {
  object_id = h;
  k = omega arith;
  width = omega arith;
  height = omega arith;
  n_per_layer = omega arith;
  sym_len = omega arith;
  layer_positions = omega arith;
  nodes = omega arith;
  zones = refl;
  data_cid = refl;
  merkle_root = refl;
  shard_hashes = (refl, tt);
  content_type = (omega arith, refl);
  chunk_lens = omega arith;
  audio_sample_rate = omega arith;
  text_minhash = omega arith;
}

Reads-counted : (xs : List ℕ) → CountedInRange xs → Reads decode_counted xs (encode_counted xs)
unfolding decode_counted encode_counted encode_u32s
Reads-counted xs h =
    Reads-bind _ (Reads-u32 _ (omega arith))
      (rw (mod-eq_of_lt h.0) (Reads-repeat u32 (to_be_bytes 4) IsU32 Reads-u32 xs h.1))

Reads-text : (bytes : List ℕ) → TextInRange bytes → Reads decode_text bytes (encode_text bytes)
unfolding decode_text encode_text
Reads-text bytes h = Reads-bind _ (Reads-u16 _ (omega arith)) (
    Reads-last _ (Reads-take _ bytes (omega (arith, h.0)))
      (Reads-lift _ bytes (from_utf8-valid bytes h.1)))

Reads-hashes : (hs : List (List ℕ)) → HashesInRange hs → Reads decode_hashes hs (encode_hashes hs)
unfolding decode_hashes encode_hashes
Reads-hashes hs h = Reads-bind _ (Reads-u32 _ (omega arith)) (
    rw (mod-eq_of_lt h.0)
      (Reads-repeat (take 32) (λ x. x) (λ x. length x ≡ 32) (λ x e. Reads-take 32 x e) hs h.1))

Reads-channel :
    (n : ℕ) (c : List (List (List ℕ)))
    → (length c ≡ n) × All HashesInRange c
    → Reads (repeat n decode_hashes) c (encode_channel c)
unfolding encode_channel
Reads-channel n c h =
    Reads-repeat_n decode_hashes encode_hashes HashesInRange Reads-hashes n c h.0 h.1

placement_of-byte : (p : Placement) → placement_of (placement_byte p) ≡ ok p
unfolding placement_of placement_byte
placement_of-byte p = ground arith

kind_of-byte : (k : ObjectKind) → kind_of (kind_byte k) ≡ ok k
unfolding kind_of kind_byte
kind_of-byte k = ground arith

module _ (m : Manifest) (h : InRange m) where
  Reads-u32s :
      (xs : List ℕ)
      → (length xs ≡ m.nlayers) × All IsU32 xs
      → Reads (repeat m.nlayers u32) xs (encode_u32s xs)
  unfolding encode_u32s
  Reads-u32s xs r = Reads-repeat_n u32 (to_be_bytes 4) IsU32 Reads-u32 m.nlayers xs r.0 r.1

  Reads-positions :
      Reads
        (repeat m.nlayers decode_counted)
        m.layer_positions
        (flat_map encode_counted m.layer_positions)
  Reads-positions =
      Reads-repeat_n decode_counted encode_counted CountedInRange Reads-counted m.nlayers
        m.layer_positions h.layer_positions.0 h.layer_positions.1

  Reads-nodes : Reads (repeat (length m.nodes) decode_text) m.nodes (flat_map encode_text m.nodes)
  Reads-nodes = Reads-repeat decode_text encode_text TextInRange Reads-text m.nodes h.nodes.1

  Reads-channels :
      Reads
        (repeat m.channels (repeat m.nlayers decode_hashes))
        m.shard_hashes
        (flat_map encode_channel m.shard_hashes)
  Reads-channels =
      Reads-repeat_n (repeat m.nlayers decode_hashes) encode_channel _ (Reads-channel m.nlayers)
        m.channels m.shard_hashes h.shard_hashes.0 h.shard_hashes.1

  Reads-body : Reads decode_body m (encode_body m)
  unfolding decode_body encode_body
  Reads-body = Reads-bind _ (Reads-u64 m.object_id h.object_id) (
      Reads-bind _ (Reads-u16 m.k h.k) (
        Reads-bind _ (Reads-u8 m.nlayers) (
          Reads-bind _ (Reads-u8 m.channels) (
            Reads-bind _ (Reads-u32 m.width h.width) (
              Reads-bind _ (Reads-u32 m.height h.height) (
                Reads-bind _ (Reads-u8 m.levels) (
                  Reads-bind _ (Reads-u8 (placement_byte m.placement)) (
                    Reads-bind _ (Reads-lift _ m.placement (placement_of-byte m.placement)) (
                      Reads-bind _ (Reads-u32s m.n_per_layer h.n_per_layer) (
                        Reads-bind _ (Reads-u32s m.sym_len h.sym_len) (
                          Reads-bind _ Reads-positions (
                            Reads-bind _ (Reads-u32_cast (length m.nodes) h.nodes.0) (
                              Reads-bind _ Reads-nodes (
                                Reads-bind _ (Reads-take _ m.zones h.zones) (
                                  Reads-bind _ (Reads-take 32 m.data_cid h.data_cid) (
                                    Reads-bind _ (Reads-take 32 m.merkle_root h.merkle_root) (
                                      Reads-bind _ Reads-channels (
                                        Reads-bind _ (Reads-u8 (kind_byte m.kind)) (
                                          Reads-bind _ (Reads-lift _ m.kind (kind_of-byte m.kind)) (
                                            Reads-bind _ (Reads-text m.content_type h.content_type)
                                              (Reads-bind _
                                                (Reads-counted m.chunk_lens h.chunk_lens)
                                                (Reads-bind _
                                                  (Reads-u32 m.audio_sample_rate
                                                    h.audio_sample_rate)
                                                  (Reads-last _
                                                    (Reads-counted m.text_minhash h.text_minhash)
                                                    (Reads-pure m))))))))))))))))))))))))

all_lengths_hold :
    (n : ℕ) (cs : List (List (List (List ℕ))))
    → All (λ c. (length c ≡ n) × All HashesInRange c) cs
    → all_lengths n cs ≡ true
unfolding all_lengths
all_lengths_hold n [] h = refl
all_lengths_hold n (c ∷ cs) h = ground (arith, all_lengths_hold n cs h.1, h.0.0)

asserts_hold : (m : Manifest) → InRange m → asserts m ≡ true
unfolding asserts
asserts_hold m h = ground (
  arith,
  h.n_per_layer.0,
  h.sym_len.0,
  h.layer_positions.0,
  h.zones,
  h.shard_hashes.0,
  all_lengths_hold m.nlayers m.shard_hashes h.shard_hashes.1,
)

module _ (m : Manifest) (h : InRange m) where
  pub encode-eq : encode m ≡ some (magic ++ encode_body m)
  unfolding encode
  encode-eq = rw (asserts_hold m h)

  pub Reads-manifest : Reads read_manifest m (magic ++ encode_body m)
  unfolding read_manifest check_magic list_eq
  Reads-manifest =
      Reads-bind _ (Reads-last _ (Reads-take 8 magic refl) (Reads-pure true)) (Reads-body m h)

  Reads-legacy : Reads read_manifest m (magic_legacy ++ encode_body m)
  unfolding read_manifest check_magic list_eq
  Reads-legacy =
      Reads-bind _ (Reads-last _ (Reads-take 8 magic_legacy refl) (Reads-pure true))
        (Reads-body m h)

  -- A manifest in range is encoded without a panic, and decoding the bytes gives the manifest back.
  pub manifest_round_trip : (bytes : List ℕ) × (encode m ≡ some bytes) × (decode bytes ≡ ok m)
  unfolding decode
  manifest_round_trip = (magic ++ encode_body m, encode-eq, Reads-run Reads-manifest)

  -- The same bytes behind the previous magic are decoded to the same manifest.
  legacy_round_trip :
      (body : List ℕ) × (encode m ≡ some (magic ++ body)) × (decode (magic_legacy ++ body) ≡ ok m)
  unfolding decode
  legacy_round_trip = (encode_body m, encode-eq, Reads-run Reads-legacy)
