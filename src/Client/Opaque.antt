-- ===== src/Client/Opaque.antt =====
-- `put_opaque_object` and `get_opaque_object` of crates/holofs-client/src/client.rs: files that are read byte for
-- byte. The manifest of a put that fails is not returned.
use holofs.Prelude.{
  ℕ, ◌+◌, ◌-◌, ◌/◌, ◌%◌, ◌^◌, min, Bool, true, false, List, [], ◌∷◌, Option, none, some, length,
  get_elem?, take, drop, ◌==◌, if◌then◌else◌,
}
use holofs.Gf
use holofs.Rng
use holofs.Codec.Bytes.{from_be_bytes}
use holofs.Sha256 as Hasher
use holofs.Merkle.{Hash, merkle_root}
use holofs.Rlnc.Encode.{encode_layer}
use holofs.Rlnc.Decode.{Decoded, panic, undecodable, decoded, decode_layer}
use holofs.Manifest.{Manifest, ObjectKind, opaque}
use holofs.Client.{Network, M, ◌>>=◌, ◌>>◌, pure, fail, or_panic, assert, layer_lost}
use holofs.Client as C
use holofs.Client.Gather.{gather_layer, verified, expected_hashes, send_shards}

-- "holofs-opaque-v1"
abbrev opaque_tag : List ℕ
opaque_tag =
    b'h' ∷ b'o' ∷ b'l' ∷ b'o' ∷ b'f' ∷ b's' ∷ b'-' ∷ b'o' ∷ b'p' ∷ b'a' ∷ b'q' ∷ b'u' ∷ b'e' ∷ b'-'
    ∷ b'v' ∷ b'1' ∷ []

abbrev pub is_opaque : ObjectKind → Bool
is_opaque opaque = true
is_opaque other = false

unfoldable pub opaque_cid : List ℕ → List ℕ → Hash
opaque_cid content_type bytes =
    let h = Hasher.update Hasher.new opaque_tag in
    let h = Hasher.update h content_type in let h = Hasher.update h bytes in Hasher.finalize h

-- The object's name and the seed of the coder, from its hash.
unfoldable pub id_of : Hash → ℕ
id_of cid = from_be_bytes (take 8 cid)

unfoldable pub seed_of : Hash → ℕ
seed_of cid = from_be_bytes (take 8 (drop 8 cid))

-- What is written into the manifest before the shards are sent.
unfoldable pub prepare_opaque : Manifest → List ℕ → ℕ → Manifest
prepare_opaque m bytes symbol_len =
    let cid = opaque_cid m.content_type bytes in
    record m {
      sym_len = (symbol_len % 2 ^ 32) ∷ [];
      chunk_lens = (length bytes % 2 ^ 32) ∷ [];
      data_cid = cid;
      object_id = id_of cid;
    }

-- What is written into it afterwards.
unfoldable pub with_hashes : Manifest → List Hash → Manifest
with_hashes m hashes = record m {
  shard_hashes = (hashes ∷ []) ∷ [];
  merkle_root = merkle_root hashes;
}

-- `(real_len + k - 1) / k`
unfoldable pub symbol_len_of : ℕ → ℕ → Option ℕ
symbol_len_of real_len k = if k == 0 then none else some ((real_len + k - 1) / k)

abbrev pub or_lost : {W : Type 0} → Decoded → M W (List ℕ)
or_lost panic w = (C.panic, w)
or_lost undecodable w = (C.failed (layer_lost 0 0), w)
or_lost (decoded out) w = (C.done out, w)

-- The real length, or that of what was decoded.
abbrev pub first_or : List ℕ → ℕ → ℕ
first_or [] d = d
first_or (n ∷ ns) d = n

module _ (net : Network) where
  unfoldable pub put_opaque_object : Manifest → List ℕ → List ℕ → M net.World Manifest
  put_opaque_object m live bytes = do
    assert (is_opaque m.kind)
    assert (m.channels == 1)
    assert (m.nlayers == 1)
    sym_len ← or_panic (symbol_len_of (length bytes) m.k)
    let prepared = prepare_opaque m bytes sym_len
    n ← or_panic (get_elem? m.n_per_layer 0)
    e ← or_panic (encode_layer Gf.new bytes n (Rng.new (seed_of prepared.data_cid)))
    assert (e.symbol_len == sym_len)
    hashes ← send_shards net prepared live 0 0 0 e.shards
    pure (with_hashes prepared hashes)

  unfoldable pub get_opaque_object : Manifest → List ℕ → M net.World (List ℕ)
  get_opaque_object m live = do
    assert (is_opaque m.kind)
    raw ← gather_layer net m live 0 0
    expected ← or_panic (expected_hashes m 0 0)
    sl ← or_panic (get_elem? m.sym_len 0)
    out ← or_lost (decode_layer Gf.new (verified expected raw) sl)
    let real_len = first_or m.chunk_lens (length out % 2 ^ 32)
    pure (take (min real_len (length out)) out)
