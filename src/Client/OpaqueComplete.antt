-- ===== src/Client/OpaqueComplete.antt =====
-- `put_opaque_object` and then `get_opaque_object` of crates/holofs-client/src/client.rs on a healthy cluster.
use holofs.Prelude.{
  ℕ, ◌+◌, ◌-◌, ◌*◌, ◌/◌, ◌%◌, ◌^◌, ◌<◌, ◌≤◌, ◌≡◌, ◌≢◌, inl, inr, refl, sym, ap, ◌∙◌, subst, true,
  List, [], ◌∷◌, map, some, In, All, length, get_elem?, ==_iff, arith,
}
use holofs.Shard.{Shard}
use holofs.Gf
use holofs.Rng
use holofs.Merkle.{shard_hash}
use holofs.Placement.{rendezvous_zone_aware}
use holofs.Placement.BinarySearch.{IsSorted}
use holofs.Manifest.{Manifest}
use holofs.Wire.Frame.{max_frame}
use holofs.Rlnc.Linear.{IsByte}
use holofs.Rlnc.Encode.{default_k, resize, Encoded, encode_layer}
use holofs.Rlnc.Encoded.{encode_layer_with_k-Consistent}
use holofs.Rlnc.Decode.{decoded, decode_layer}
use holofs.Rlnc.LayerRoundTrip.{decode-encode_layer_complete}
use holofs.Client.{done}
use holofs.Client.Gather.{verified, gather_layer, expected_hashes, send_shards}
use holofs.Client.Opaque.{
  is_opaque, opaque_cid, id_of, seed_of, prepare_opaque, with_hashes, symbol_len_of,
  put_opaque_object, get_opaque_object,
}
use holofs.Client.Cluster.{Nodes, cluster}
use holofs.Client.Integrity.{NoClash, verified-made}
use holofs.Client.OpaqueIntegrity.{opaque_shards, trimmed, length_room}
use holofs.Client.Places.{id_of-bound, verified-keeps, All-inside, have-places}
use holofs.Client.Transport.{Shape, AreReady}
use holofs.Client.Complete.{all-sent, all-got}

module _ (sign : List ℕ → List ℕ) (m : Manifest) (live bytes : List ℕ) (n : ℕ)
    (kind : is_opaque m.kind ≡ true) (channels : m.channels ≡ 1) (nlayers : m.nlayers ≡ 1)
    (k : m.k ≡ default_k) (planned : get_elem? m.n_per_layer 0 ≡ some n) (enough : default_k ≤ n)
    (isbyte : All IsByte bytes) (small : length bytes < 2 ^ 32) where
  abbrev sl : ℕ
  sl = (length bytes + default_k - 1) / default_k

  abbrev rng : Rng.Rng
  rng = Rng.new (seed_of (opaque_cid m.content_type bytes))

  -- The encoder makes `n` shards of one shape.
  record Made (e : Encoded) : Type 0 where
    encoded : encode_layer Gf.new bytes n rng ≡ some e
    count : length e.shards ≡ n
    shaped : (s : Shard) → In s e.shards → Shape sl s
    symbols : e.symbol_len ≡ sl

  All-In : (P : Shard → Type 0) (xs : List Shard) → All P xs → (s : Shard) → In s xs → P s
  All-In P [] h s i = absurd i
  All-In P (x ∷ xs) h s (inl e) = subst P e h.0
  All-In P (x ∷ xs) h s (inr i) = All-In P xs h.1 s i

  made : (e : Encoded) × Made e
  unfolding encode_layer
  made =
      let (e, made, count, _, consistent) =
        encode_layer_with_k-Consistent bytes default_k n 0 rng (λ z. omega arith) isbyte in
      let symbols = length_room bytes n rng e made in
      (
        e,
        record {
          encoded = made;
          count = count;
          shaped = λ s i. let (c, p, _) = All-In _ e.shards consistent s i in (c.0, p.0 ∙ symbols);
          symbols = symbols;
        },
      )

  same_shards : (e : Encoded) → Made e → opaque_shards m bytes ≡ e.shards
  unfolding opaque_shards
  same_shards e h = rw (planned, opaque_shards) (rw (h.encoded) refl)

  abbrev prepared : Manifest
  prepared = prepare_opaque m bytes sl

  symbols : symbol_len_of (length bytes) m.k ≡ some sl
  unfolding symbol_len_of
  symbols = subst (λ d. symbol_len_of (length bytes) d ≡ some sl) (sym k) refl

  encoded_prepared :
      (e : Encoded)
      → Made e
      → encode_layer Gf.new bytes n (Rng.new (seed_of prepared.data_cid)) ≡ some e
  unfolding prepare_opaque
  encoded_prepared e h = h.encoded

  put-done :
      (e : Encoded) (nodes nodes' : Nodes)
      → Made e
      → send_shards (cluster sign) prepared live 0 0 0 e.shards nodes
        ≡ (done (map shard_hash e.shards), nodes')
      → put_opaque_object (cluster sign) m live bytes nodes
        ≡ (done (with_hashes prepared (map shard_hash e.shards)), nodes')
  unfolding put_opaque_object
  put-done e nodes nodes' h sent =
      let one_channel = (==_iff m.channels 1).1 channels in
      let one_layer = (==_iff m.nlayers 1).1 nlayers in
      let same = (==_iff e.symbol_len sl).1 h.symbols in
      rw kind (
        rw one_channel (
          rw one_layer
            (rw symbols (rw planned (rw (encoded_prepared e h) (rw same (rw sent refl)))))))

  -- What is read on the cluster once the shards are gathered.
  get-done :
      (e : Encoded) (nodes : Nodes) (raw : List Shard)
      → Made e
      → let m' = with_hashes prepared (map shard_hash e.shards) in
        gather_layer (cluster sign) m' live 0 0 nodes ≡ (done raw, nodes)
        → decode_layer Gf.new (verified (map shard_hash e.shards) raw) e.symbol_len
          ≡ decoded (resize bytes (default_k * e.symbol_len))
        → get_opaque_object (cluster sign) m' live nodes ≡ (done bytes, nodes)
  unfolding get_opaque_object
  get-done e nodes raw h got whole =
      let m' = with_hashes prepared (map shard_hash e.shards) in
      let kind' : is_opaque m'.kind ≡ true = unfold with_hashes prepare_opaque in kind in
      let hashes' : expected_hashes m' 0 0 ≡ some (map shard_hash e.shards) =
        unfold expected_hashes with_hashes prepare_opaque in refl in
      let sl' : get_elem? m'.sym_len 0 ≡ some (sl % 2 ^ 32) =
        unfold with_hashes prepare_opaque in refl in
      let lens' : m'.chunk_lens ≡ (length bytes % 2 ^ 32) ∷ [] =
        unfold with_hashes prepare_opaque in refl in
      let wraps : sl % 2 ^ 32 ≡ e.symbol_len = omega (arith, h.symbols) in
      let room : length bytes ≤ default_k * e.symbol_len = omega (arith, h.symbols) in
      rw kind' (
        rw got (
          rw hashes' (
            rw sl' (
              rw wraps (
                rw whole (
                  rw lens' (ap (λ t. (done t, nodes)) (trimmed bytes e.symbol_len small room))))))))

  -- Liveness of the whole system: a file that is put on a cluster whose nodes are all up is stored, and the
  -- same client reads it back, byte for byte. The manifest is that of a file with threshold `K` that plans
  -- `K` shards or more; the live nodes are a sorted, non-empty list of nodes of the manifest, and places are
  -- not chosen by zones; the file has bytes, is shorter than 4 GiB, and its shards fit together into one
  -- frame; no two shards of the file have one hash, and the nodes hold no other shards under its name.
  pub get-put_opaque_object_complete :
      (nodes : Nodes)
      → m.placement ≢ rendezvous_zone_aware
      → live ≢ []
      → IsSorted live
      → All (λ i. i < length m.nodes) live
      → n * (sl + 22) + 11 ≤ max_frame
      → NoClash (opaque_shards m bytes) (opaque_shards m bytes)
      → AreReady (id_of (opaque_cid m.content_type bytes)) (opaque_shards m bytes) m.nodes nodes
      → (m' : Manifest) × (nodes' : Nodes) × (put_opaque_object (cluster sign) m live bytes nodes
          ≡ (done m', nodes'))
        × (get_opaque_object (cluster sign) m' live nodes' ≡ (done bytes, nodes'))
  unfolding prepare_opaque with_hashes gather_layer
  get-put_opaque_object_complete nodes plain some_live sorted in_range room clear ready =
      let (e, h) = made in
      let shards = same_shards e h in
      let clear' = subst (λ ss. NoClash ss ss) shards clear in
      let ready' =
        subst (λ ss. AreReady (id_of (opaque_cid m.content_type bytes)) ss m.nodes nodes) shards
          ready in
      let id_fits = id_of-bound m.content_type bytes in
      let room' = subst (λ c. c * (sl + 22) + 11 ≤ max_frame) (sym h.count) room in
      let places = have-places prepared live 0 (length e.shards) plain some_live sorted in_range in
      let (nodes', put) =
        all-sent sign prepared sl e.shards id_fits h.shaped room' clear' live 0 e.shards nodes
          ready' places (λ s i. i) in
      let m' = with_hashes prepared (map shard_hash e.shards) in
      let (raw, read) =
        all-got sign m' sl e.shards id_fits h.shaped room' clear' live nodes' put.up
          (All-inside m.nodes live in_range) in
      let whole =
        decode-encode_layer_complete bytes n rng e isbyte h.encoded
          (verified (map shard_hash e.shards) raw)
          (verified-made raw e.shards (λ s t is it same.
            clear' s t (All-In (λ x. In x e.shards) raw read.only_made s is) it same))
          enough (λ s i. verified-keeps s raw e.shards (read.all_placed s (put.placed s i)) i) in
      (m', nodes', put-done e nodes nodes' h put.sent, get-done e nodes' raw h read.got whole)
