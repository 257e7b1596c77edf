-- ===== src/Client/OpaqueIntegrity.antt =====
-- Opaque objects of crates/holofs-client/src/client.rs: what is read is what was put.
use holofs.Prelude.{
  ℕ, ◌+◌, ◌-◌, ◌*◌, ◌/◌, ◌<◌, ◌≤◌, ◌%◌, ◌^◌, ◌≡◌, ◌⊎◌, inl, inr, refl, sym, ap, ◌∙◌, subst, min,
  true, List, [], map, none, some, some_cancel, All, length, get_elem?, take, ◌==◌, ==_iff, arith,
}
use holofs.Shard.{Shard}
use holofs.Gf
use holofs.Rng
use holofs.Merkle.{shard_hash}
use holofs.Manifest.{Manifest}
use holofs.Rlnc.Linear.{IsByte}
use holofs.Rlnc.Encode.{default_k, resize, Encoded, encode_layer, encode_layer_with_k}
use holofs.Rlnc.Encoded.{length-resize, take-resize}
use holofs.Rlnc.Decode.{decode_layer}
use holofs.Rlnc.LayerRoundTrip.{decode-encode_layer}
use holofs.Client.{
  ClientError, layer_lost, Outcome, done, failed, panic, Network, M, bind, ◌>>=◌, or_panic, pure,
}
use holofs.Client.Gather.{gather_layer, verified, expected_hashes, send_shards}
use holofs.Client.Opaque.{
  is_opaque, opaque_cid, seed_of, prepare_opaque, with_hashes, symbol_len_of, or_lost, first_or,
  put_opaque_object, get_opaque_object,
}
use holofs.Client.Integrity.{
  bind-done, bind-or_panic, bind-assert, done_cancel, IsSafe, gather_from-Safe, NoClash,
  verified-made, send_shards-hashes,
}

-- The shards that are made of a file.
unfoldable pub opaque_shards : Manifest → List ℕ → List Shard
opaque_shards m bytes = elim (get_elem? m.n_per_layer 0) [
  | none ↦ []
  | some n ↦
      elim (encode_layer Gf.new bytes n (Rng.new (seed_of (opaque_cid m.content_type bytes)))) [
        | none ↦ []
        | some e ↦ e.shards
      ]
]

-- What a put that succeeds has done.
pub record WasPut (m : Manifest) (bytes : List ℕ) (m' : Manifest) : Type 0 where
  pub n : ℕ
  pub e : Encoded
  pub sl : ℕ
  pub planned : get_elem? m.n_per_layer 0 ≡ some n
  pub made :
      encode_layer Gf.new bytes n (Rng.new (seed_of (opaque_cid m.content_type bytes))) ≡ some e
  pub agreed : e.symbol_len ≡ sl
  pub kept : is_opaque m.kind ≡ true
  pub result : m' ≡ with_hashes (prepare_opaque m bytes sl) (map shard_hash e.shards)

put_opaque_object-WasPut :
    (net : Network) (m m' : Manifest) (live bytes : List ℕ) (w : net.World)
    → (put_opaque_object net m live bytes w).0 ≡ done m'
    → WasPut m bytes m'
unfolding put_opaque_object prepare_opaque
put_opaque_object-WasPut net m m' live bytes w h =
    let (e0, h) = bind-assert (is_opaque m.kind) _ w h in
    let (e1, h) = bind-assert (m.channels == 1) _ w h in
    let (e2, h) = bind-assert (m.nlayers == 1) _ w h in
    let (sl, e3, h) = bind-or_panic (symbol_len_of (length bytes) m.k) _ w h in
    let prepared = prepare_opaque m bytes sl in
    let rng = Rng.new (seed_of (opaque_cid m.content_type bytes)) in
    let (n, e4, h) = bind-or_panic (get_elem? m.n_per_layer 0) _ w h in
    let (e, e5, h) = bind-or_panic (encode_layer Gf.new bytes n rng) _ w h in
    let (e6, h) = bind-assert (e.symbol_len == sl) _ w h in
    let (hashes, e7, h) = bind-done (send_shards net prepared live 0 0 0 e.shards w) _ h in
    record {
      n = n;
      e = e;
      sl = sl;
      planned = e4;
      made = e5;
      agreed = (==_iff e.symbol_len sl).0 e6;
      kept = e0;
      result =
          sym (done_cancel h)
          ∙ ap (with_hashes prepared)
              (send_shards-hashes net prepared live 0 0 0 e.shards w hashes e7);
    }

-- What was read is the file, or there was an error.
abbrev pub Intact : List ℕ → Outcome (List ℕ) → Type 0
Intact bytes o = (o ≡ done bytes) ⊎ ((e : ClientError) × (o ≡ failed e))

-- Trimming the padded layer to the length in the manifest gives the file back.
pub trimmed :
    (bytes : List ℕ) (sl : ℕ)
    → length bytes < 2 ^ 32
    → length bytes ≤ default_k * sl
    → let out = resize bytes (default_k * sl) in
      take (min (length bytes % 2 ^ 32) (length out)) out ≡ bytes
trimmed bytes sl h room =
    let out = resize bytes (default_k * sl) in
    let len = length-resize bytes (default_k * sl) in
    let all : min (length bytes % 2 ^ 32) (length out) ≡ length bytes = omega arith in
    ap (λ t. take t out) all ∙ take-resize bytes (default_k * sl) room

pub length_room :
    (bytes : List ℕ) (n : ℕ) (rng : Rng.Rng) (e : Encoded)
    → encode_layer Gf.new bytes n rng ≡ some e
    → e.symbol_len ≡ (length bytes + default_k - 1) / default_k
unfolding encode_layer encode_layer_with_k
length_room bytes n rng e made = sym (ap (λ (d : Encoded). d.symbol_len) (some_cancel made))

-- The rest of a read, once the shards are gathered.
module _ (m m' : Manifest) (bytes : List ℕ) (put : WasPut m bytes m') (isbyte : All IsByte bytes)
    (short : length bytes < 2 ^ 32) where
  open put use {n, e, sl, made, agreed, planned, result, kept}

  abbrev rng : Rng.Rng
  rng = Rng.new (seed_of (opaque_cid m.content_type bytes))

  finish : {W : Type 0} → List Shard → M W (List ℕ)
  finish raw = do
    expected ← or_panic (expected_hashes m' 0 0)
    sl ← or_panic (get_elem? m'.sym_len 0)
    out ← or_lost (decode_layer Gf.new (verified expected raw) sl)
    let real_len = first_or m'.chunk_lens (length out % 2 ^ 32)
    pure (take (min real_len (length out)) out)

  finish-Intact :
      {W : Type 0} (raw : List Shard) (w : W) → NoClash raw e.shards → Intact bytes (finish raw w).0
  unfolding finish expected_hashes with_hashes prepare_opaque
  finish-Intact raw w clear =
      let room = length_room bytes n rng e made in
      let same : sl % 2 ^ 32 ≡ e.symbol_len = omega (arith, agreed) in
      let fits : length bytes ≤ default_k * e.symbol_len = omega arith in
      rw result (
        rw same
          (elim (decode-encode_layer bytes n rng e isbyte made
            (verified (map shard_hash e.shards) raw) (verified-made raw e.shards clear)) [
              | inl lost ↦ rw lost (inr (layer_lost 0 0, refl))
              | inr good ↦ rw good (inl (ap done (trimmed bytes e.symbol_len short fits)))
            ]))

  opaque_shards-made : opaque_shards m bytes ≡ e.shards
  unfolding opaque_shards
  opaque_shards-made = rw (planned, opaque_shards) (rw made refl)

  gathered-Intact :
      {W : Type 0} (r : Outcome (List Shard) × W)
      → IsSafe r.0
      → ((raw : List Shard) → r.0 ≡ done raw → NoClash raw (opaque_shards m bytes))
      → Intact bytes (bind r finish).0
  gathered-Intact (done raw, w) safe clear =
      finish-Intact raw w (subst (NoClash raw) opaque_shards-made (clear raw refl))
  gathered-Intact (failed x, w) safe clear = inr (x, refl)
  gathered-Intact (panic, w) safe clear = absurd safe

  same_kind : is_opaque m'.kind ≡ true
  unfolding with_hashes prepare_opaque
  same_kind = ap (λ (d : Manifest). is_opaque d.kind) result ∙ kept

  same_nodes : m'.nodes ≡ m.nodes
  unfolding with_hashes prepare_opaque
  same_nodes = ap (λ (d : Manifest). d.nodes) result

-- Integrity against any nodes: a file that was put is read back as it was, or with an error, whatever the
-- nodes answer to the reading client, be they the same or others. It is read from nodes of the manifest; the
-- file has bytes and is shorter than 4 GiB, and no shard that is received has the hash of another shard of
-- the file.
pub get-put_opaque_object :
    (net net' : Network) (m m' : Manifest) (live live' bytes : List ℕ) (w : net.World)
    (w' : net'.World)
    → (put_opaque_object net m live bytes w).0 ≡ done m'
    → All IsByte bytes
    → length bytes < 2 ^ 32
    → All (λ i. i < length m.nodes) live'
    → ((raw : List Shard)
        → (gather_layer net' m' live' 0 0 w').0 ≡ done raw
        → NoClash raw (opaque_shards m bytes))
    → Intact bytes (get_opaque_object net' m' live' w').0
unfolding get_opaque_object finish
get-put_opaque_object net net' m m' live live' bytes w w' h isbyte short inside clear =
    let put = put_opaque_object-WasPut net m m' live bytes w h in
    rw (same_kind m m' bytes put isbyte short) (
      gathered-Intact m m' bytes put isbyte short (gather_layer net' m' live' 0 0 w')
        (unfold gather_layer in
          gather_from-Safe net' m' 0 0 live'
            (subst (λ ns. All (λ i. i < length ns) live')
              (sym (same_nodes m m' bytes put isbyte short)) inside)
            w')
        clear)
