-- ===== src/Client/Tests.antt =====
-- Instances of the theorems on crates/holofs-client/src/client.rs.
use holofs.Prelude.{
  ℕ, ◌≡◌, refl, sym, ap, ◌∙◌, subst, Bool, true, ◌&&◌, Bool-cases, List, [], ◌∷◌, map, Option-cases,
  none, In, inl, inr, All, get_elem?, list_eq, list_eq_refl, list_eq_iff, not, arith,
}
use holofs.Shard.{Shard}
use holofs.Codec.Io.{ok, map_ok}
use holofs.Codec.Bytes.{to_be_bytes, from_be_bytes}
use holofs.Sha256.{new, copy_at, flush, absorb, update, clear_to, mark, finalize}
use holofs.Sha256.Compress.{rotate_right, block_words, schedule, round, rounds, process_block}
use holofs.Merkle.{Hash, shard_hash}
use holofs.Placement.{Placement}
use holofs.Manifest.{ObjectKind, Manifest}
use holofs.Rlnc.Linear.{IsByte}
use holofs.Placement.BinarySearch.{IsSorted}
use holofs.Rlnc.Encode.{
  encode_layer, encode_layer_with_k, resize, systematic, unit_vector, chunk, random_shards,
}
use holofs.Storage as Storage
use holofs.Storage.HashMap.{find}
use holofs.Storage.Filed.{new-IsFiled}
use holofs.Codec.Cursor.{run, u8, u32, take, pure, repeat}
use holofs.Wire.Frame.{frame, write_frame, read_frame}
use holofs.Wire.Request as Req
use holofs.Wire.Response as Resp
use holofs.Client.{Network, done, rpc, ask, read_response}
use holofs.Client.Gather.{expect_shards, gather_from, gather_layer}
use holofs.Client.Transport.{AreReady}
use holofs.Client.OpaqueComplete.{get-put_opaque_object_complete}
use holofs.Client.Cluster.{Nodes, cluster}
use holofs.Client.Integrity.{NoClash, done_cancel}
use holofs.Client.Opaque.{id_of, opaque_cid, put_opaque_object, get_opaque_object}
use holofs.Client.OpaqueIntegrity.{Intact, opaque_shards, get-put_opaque_object}

abbrev address : List ℕ
address = b'n' ∷ b':' ∷ b'1' ∷ []

abbrev bytes : List ℕ
bytes = b'h' ∷ b'i' ∷ []

abbrev planned : Manifest
planned = record {
  object_id = 0;
  k = 16;
  nlayers = 1;
  n_per_layer = 16 ∷ [];
  sym_len = [];
  layer_positions = [];
  channels = 1;
  width = 0;
  height = 0;
  levels = 0;
  nodes = address ∷ [];
  placement = Placement.rendezvous;
  zones = [];
  data_cid = [];
  merkle_root = [];
  shard_hashes = [];
  kind = ObjectKind.opaque;
  content_type = [];
  chunk_lens = [];
  audio_sample_rate = 0;
  text_minhash = [];
}

abbrev fresh : List Hash → Hash → Bool
fresh [] h = true
fresh (g ∷ gs) h = not (list_eq g h) && fresh gs h

abbrev all_fresh : List Hash → Bool
all_fresh [] = true
all_fresh (h ∷ hs) = fresh hs h && all_fresh hs

distinct_hashes : all_fresh (map shard_hash (opaque_shards planned bytes)) ≡ true
unfolding opaque_shards encode_layer encode_layer_with_k resize systematic unit_vector chunk
    random_shards shard_hash new copy_at flush absorb update clear_to mark finalize rotate_right
    block_words schedule round rounds process_block to_be_bytes from_be_bytes list_eq
distinct_hashes = refl

fresh-absent :
    (h : Hash) (ss : List Shard) (t : Shard)
    → fresh (map shard_hash ss) h ≡ true
    → In t ss
    → shard_hash t ≡ h
    → ⊥
fresh-absent h (s ∷ ss) t f (inl e) same =
    let eq = subst (λ x. list_eq x h ≡ true) (sym (ap shard_hash e ∙ same)) (list_eq_refl h) in
    let bad = rw eq at f in cc
fresh-absent h (s ∷ ss) t f (inr i) same = elim (Bool-cases (list_eq (shard_hash s) h)) [
  | inl eq ↦ let bad = rw eq at f in cc
  | inr ne ↦ fresh-absent h ss t (rw ne at f) i same
]
fresh-absent h [] t f i same = absurd i

NoClash-fresh : (ss : List Shard) → all_fresh (map shard_hash ss) ≡ true → NoClash ss ss
NoClash-fresh (x ∷ ss) f s t i j same =
    elim (Bool-cases (fresh (map shard_hash ss) (shard_hash x))) [
      | inr stale ↦ let bad = rw stale at f in cc
      | inl new_one ↦
          let rest = rw new_one at f in
          elim i [
            | inl e ↦ elim j [
              | inl e' ↦ sym e ∙ e'
              | inr j' ↦
                  absurd
                    (fresh-absent (shard_hash x) ss t new_one j' (sym same ∙ ap shard_hash (sym e)))
            ]
            | inr i' ↦ elim j [
              | inl e' ↦
                  absurd
                    (fresh-absent (shard_hash x) ss s new_one i' (same ∙ ap shard_hash (sym e')))
              | inr j' ↦ NoClash-fresh ss rest s t i' j' same
            ]
          ]
    ]
NoClash-fresh [] f s t i j same = absurd i

abbrev sign_nothing : List ℕ → List ℕ
sign_nothing nonce = []

abbrev one_node : Nodes
one_node = (address, Storage.new) ∷ []

one_node-ready : (object_id : ℕ) (ss : List Shard) → AreReady object_id ss (address ∷ []) one_node
unfolding find Storage.new Storage.get_by_hash Storage.bucket
one_node-ready object_id ss addr (inl e) = (
  Storage.new,
  rw ((list_eq_iff address addr).1 e) refl,
  record { filed = new-IsFiled; only_made = λ h s x. cc },
)
one_node-ready object_id ss addr (inr i) = absurd i

bytes-small : All IsByte bytes
bytes-small = (omega arith, (omega arith, tt))

one-IsSorted : IsSorted (0 ∷ [])
one-IsSorted i j le lt = ground arith

get-put_opaque_object_complete_example :
    (m' : Manifest) × (nodes' : Nodes) × (put_opaque_object
        (cluster sign_nothing)
        planned
        (0 ∷ [])
        bytes
        one_node
      ≡ (done m', nodes'))
    × (get_opaque_object (cluster sign_nothing) m' (0 ∷ []) nodes' ≡ (done bytes, nodes'))
get-put_opaque_object_complete_example =
    get-put_opaque_object_complete sign_nothing planned (0 ∷ []) bytes 16 refl refl refl refl refl
      (omega arith) bytes-small (omega arith) one_node (λ e. cc) (λ e. cc) one-IsSorted
      (omega arith, tt) (omega arith) (NoClash-fresh (opaque_shards planned bytes) distinct_hashes)
      (one_node-ready (id_of (opaque_cid planned.content_type bytes)) (opaque_shards planned bytes))

-- The manifest and the nodes after the put of `get-put_opaque_object_complete_example`.
healthy :
    (m' : Manifest) × (nodes' : Nodes) × (put_opaque_object
        (cluster sign_nothing)
        planned
        (0 ∷ [])
        bytes
        one_node
      ≡ (done m', nodes'))
    × (get_opaque_object (cluster sign_nothing) m' (0 ∷ []) nodes' ≡ (done bytes, nodes'))
healthy =
    get-put_opaque_object_complete sign_nothing planned (0 ∷ []) bytes 16 refl refl refl refl refl
      (omega arith) bytes-small (omega arith) one_node (λ e. cc) (λ e. cc) one-IsSorted
      (omega arith, tt) (omega arith) (NoClash-fresh (opaque_shards planned bytes) distinct_hashes)
      (one_node-ready (id_of (opaque_cid planned.content_type bytes)) (opaque_shards planned bytes))

-- A network whose nodes have lost everything: each request is answered with no shards.
abbrev emptied : Network
emptied = record {
  World = Unit;
  connect = λ addr w. (none, w);
  exchange = λ addr sent w. (ok (frame (Resp.encode (Resp.shards []))), w);
}

no_shards :
    (addr : List ℕ) (object_id : ℕ)
    → rpc emptied addr (Req.get object_id 0 0) tt ≡ (ok (Resp.shards []), tt)
unfolding rpc write_frame read_response run Req.encode to_be_bytes map_ok read_frame
    holofs.Codec.Cursor.◌>>=◌ u32 take frame Resp.encode pure from_be_bytes Resp.decode
    Resp.read_response u8 Resp.decode_tag repeat
no_shards addr object_id = refl

nothing_gathered :
    (m : Manifest) (raw : List Shard)
    → (gather_layer emptied m (0 ∷ []) 0 0 tt).0 ≡ done raw
    → raw ≡ []
unfolding gather_layer gather_from ask expect_shards
nothing_gathered m raw h = elim (Option-cases (get_elem? m.nodes 0)) [
  | inl out ↦ let bad = rw out at h in cc
  | inr (addr, there) ↦
      let e = rw there at h in let e' = rw (no_shards addr m.object_id) at e in sym (done_cancel e')
]

emptied-NoClash :
    (m : Manifest) (raw made : List Shard)
    → (gather_layer emptied m (0 ∷ []) 0 0 tt).0 ≡ done raw
    → NoClash raw made
emptied-NoClash m raw made h s t i j same = absurd (subst (In s) (nothing_gathered m raw h) i)

get-put_opaque_object_example : Intact bytes (get_opaque_object emptied healthy.0 (0 ∷ []) tt).0
get-put_opaque_object_example =
    get-put_opaque_object (cluster sign_nothing) emptied planned healthy.0 (0 ∷ []) (0 ∷ []) bytes
      one_node tt (ap (λ r. r.0) healthy.2) bytes-small (omega arith) (omega arith, tt)
      (λ raw h. emptied-NoClash healthy.0 raw (opaque_shards planned bytes) h)
