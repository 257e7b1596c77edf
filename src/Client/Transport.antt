-- ===== src/Client/Transport.antt =====
-- What the calls of crates/holofs-client/src/client.rs do on a cluster of nodes that hold no other shards of the
-- object, when the shards of the layer fit together into one frame.
use holofs.Prelude.{
  ℕ, ◌+◌, ◌*◌, ◌%◌, ◌^◌, ◌<◌, ◌≤◌, ◌≡◌, inl, inr, sym, ap, ◌∙◌, subst, Bool-cases, List, [], ◌∷◌,
  ◌++◌, none, some, some_cancel, In, All, length, length-append, list_eq, list_eq_sound, flat_map,
  arith,
}
use native.Mathlib.Nat.{suc-mul}
use holofs.Shard.{Shard}
use holofs.Codec.Io.{ok}
use holofs.Codec.Bytes.{to_be_bytes, length-to_be_bytes}
use holofs.Wire.ShardFormat.{encode_shard}
use holofs.Wire.ShardFormat as Format
use holofs.Wire.Frame.{Small, max_frame}
use holofs.Wire.Request as Req
use holofs.Wire.Request.RoundTrip.{request_round_trip}
use holofs.Wire.Response as Resp
use holofs.Wire.Response.RoundTrip.{response_round_trip}
use holofs.Merkle.{shard_hash}
use holofs.Rlnc.Encode.{default_k}
use holofs.Storage.HashMap.{find, insert, find-insert, find-insert_self, insert_same}
use holofs.Storage.{Store, is_some, hash_keyed, put, get, get_by_hash, bucket}
use holofs.Storage.Handler.{handle_request}
use holofs.Storage.View.{In-get}
use holofs.Client.{Address, rpc}
use holofs.Client.Cluster.{Nodes, cluster, rpc-cluster}
use holofs.Client.Integrity.{NoClash}
use holofs.Client.AfterPut.{after-put}
use holofs.Client.Ready.{layer_key, IsNode, get-made}

-- A shard of a layer with chunks of `sl` bytes.
abbrev pub Shape : ℕ → Shard → Type 0
Shape sl s = (length s.coeffs ≡ default_k) × (length s.payload ≡ sl)

length-encode_shard : (sl : ℕ) (s : Shard) → Shape sl s → length (encode_shard s) ≡ sl + 22
unfolding encode_shard
length-encode_shard sl s h =
    let b = to_be_bytes 2 (length s.coeffs % 2 ^ 16) in
    let c = to_be_bytes 4 (length s.payload % 2 ^ 32) in
    omega (
      arith,
      length-append b (c ++ (s.coeffs ++ s.payload)),
      length-append c (s.coeffs ++ s.payload),
      length-append s.coeffs s.payload,
      length-to_be_bytes 2 (length s.coeffs % 2 ^ 16),
      length-to_be_bytes 4 (length s.payload % 2 ^ 32),
    )

length-encode_shards :
    (sl : ℕ) (ss : List Shard)
    → All (Shape sl) ss
    → length (flat_map encode_shard ss) ≡ length ss * (sl + 22)
length-encode_shards sl [] h = omega arith
length-encode_shards sl (s ∷ ss) h = omega (
  arith,
  length-append (encode_shard s) (flat_map encode_shard ss),
  length-encode_shard sl s h.0,
  length-encode_shards sl ss h.1,
  suc-mul (length ss) (sl + 22),
)

All-mapped :
    (P Q : Shard → Type 0) (ss : List Shard) → ((s : Shard) → P s → Q s) → All P ss → All Q ss
All-mapped P Q [] f h = tt
All-mapped P Q (s ∷ ss) f h = (f s h.0, All-mapped P Q ss f h.1)

-- All nodes at the given addresses are up, and hold no other shards of the object than those made.
abbrev pub AreReady : ℕ → List Shard → List Address → Nodes → Type 0
AreReady object_id made addrs nodes =
    (addr : Address)
    → In addr addrs
    → (st : Store) × (find addr nodes ≡ some st) × IsNode object_id made st

-- The shard can be read from the node at the address.
abbrev pub Holds : ℕ → Nodes → Address → Shard → Type 0
Holds object_id nodes addr s =
    (st : Store) × (find addr nodes ≡ some st)
    × (get_by_hash (layer_key object_id) (shard_hash s) st ≡ some s)

module _ (sign : List ℕ → List ℕ) (object_id sl : ℕ) (made : List Shard)
    (id_fits : object_id < 2 ^ 64) (shaped : (s : Shard) → In s made → Shape sl s)
    (room : length made * (sl + 22) + 11 ≤ max_frame) (clear : NoClash made made) where
  abbrev key : holofs.Storage.Files.Key
  key = layer_key object_id

  some_made : (xs : List Shard) (s : Shard) → In s xs → 1 ≤ length xs
  some_made [] s i = absurd i
  some_made (x ∷ xs) s i = omega arith

  short : (s : Shard) → In s made → sl + 33 ≤ max_frame
  short s i = let one = some_made made s i in grind arith

  fits : (s : Shard) → In s made → Format.Fits s
  fits s i =
      let (c, p) = shaped s i in
      let small = short s i in record { coeffs = omega arith; payload = omega arith }

  Small-put : (s : Shard) → In s made → Small (Req.encode (Req.put object_id 0 0 s))
  unfolding Req.encode
  Small-put s i = omega (
    arith,
    short s i,
    length-append (to_be_bytes 8 object_id) (0 ∷ 0 ∷ encode_shard s),
    length-to_be_bytes 8 object_id,
    length-encode_shard sl s (shaped s i),
  )

  Small-get : Small (Req.encode (Req.get object_id 0 0))
  unfolding Req.encode
  Small-get =
      omega (
        arith,
        length-append (to_be_bytes 8 object_id) (0 ∷ 0 ∷ []),
        length-to_be_bytes 8 object_id,
      )

  Small-ack : Small (Resp.encode Resp.ack)
  unfolding Resp.encode
  Small-ack = omega arith

  few_shards :
      (ss : List Shard)
      → length ss ≤ length made
      → All (λ s. In s made) ss
      → Small (Resp.encode (Resp.shards ss))
  unfolding Resp.encode
  few_shards ss few all =
      let size =
        length-encode_shards sl ss (All-mapped (λ s. In s made) (Shape sl) ss shaped all) in
      let head = to_be_bytes 4 (length ss % 2 ^ 32) in
      let le : length ss * (sl + 22) ≤ length made * (sl + 22) = grind arith in
      omega (
        arith,
        size,
        length-append head (flat_map encode_shard ss),
        length-to_be_bytes 4 (length ss % 2 ^ 32),
      )

  few_count : (n : ℕ) → n ≤ length made → n < 2 ^ 32
  few_count n h = let le : length made * 1 ≤ length made * (sl + 22) = grind arith in omega arith

  -- What a put over the network does.
  pub record AfterSend (addrs : List Address) (addr : Address) (s : Shard) (nodes nodes' : Nodes)
      : Type 0 where
    pub called : rpc (cluster sign) addr (Req.put object_id 0 0 s) nodes ≡ (ok Resp.ack, nodes')
    pub ready : AreReady object_id made addrs nodes'
    pub holds : Holds object_id nodes' addr s
    pub still_holds :
        (a : Address) (t : Shard) → Holds object_id nodes a t → Holds object_id nodes' a t

  pub after-send :
      (addrs : List Address) (addr : Address) (s : Shard) (nodes : Nodes)
      → AreReady object_id made addrs nodes
      → In addr addrs
      → In s made
      → (nodes' : Nodes) × AfterSend addrs addr s nodes nodes'
  unfolding handle_request
  after-send addrs addr s nodes ready at i =
      let (st, there, node) = ready addr at in
      let st' = (put none key s st).0 in
      let nodes' = insert addr st' nodes in
      let after = after-put object_id made clear s st node i in
      let found = find-insert_self addr st' nodes in
      (
        nodes',
        record {
          called =
              rpc-cluster sign addr (Req.put object_id 0 0 s) nodes st there
                (request_round_trip (Req.put object_id 0 0 s) (id_fits, fits s i)) (Small-put s i)
                Small-ack (response_round_trip Resp.ack tt);
          ready = λ a ia. elim (Bool-cases (list_eq addr a)) [
            | inl t ↦
                let same = list_eq_sound addr a t in
                (st', subst (λ x. find x nodes' ≡ some st') same found, after.is_node)
            | inr f ↦
                let (u, at_u, node_u) = ready a ia in
                (u, find-insert a addr st' nodes ∙ rw f at_u, node_u)
          ];
          holds = (st', found, after.there);
          still_holds = λ a t (u, at_u, e). elim (Bool-cases (list_eq addr a)) [
            | inl same_addr ↦
                let same = list_eq_sound addr a same_addr in
                let eq = some_cancel (sym there ∙ ap (λ x. find x nodes) same ∙ at_u) in
                (
                  st',
                  subst (λ x. find x nodes' ≡ some st') same found,
                  after.keeps (shard_hash t) t
                      (ap (λ (x : Store). get_by_hash key (shard_hash t) x) eq ∙ e),
                )
            | inr f ↦ (u, find-insert a addr st' nodes ∙ rw f at_u, e)
          ];
        },
      )

  -- What a get over the network does: it returns made shards only, and all that the node holds.
  pub record AfterGet (addr : Address) (nodes : Nodes) (v : List Shard) : Type 0 where
    pub called : rpc (cluster sign) addr (Req.get object_id 0 0) nodes ≡ (ok (Resp.shards v), nodes)
    pub only_made : All (λ s. In s made) v
    pub all_held : (s : Shard) → Holds object_id nodes addr s → In s v

  pub after-get :
      (addrs : List Address) (addr : Address) (nodes : Nodes)
      → AreReady object_id made addrs nodes
      → In addr addrs
      → (v : List Shard) × AfterGet addr nodes v
  unfolding handle_request
  after-get addrs addr nodes ready at =
      let (st, there, node) = ready addr at in
      let v = get key st in
      let (few, all) = get-made object_id made st node in
      (
        v,
        record {
          called =
              rpc-cluster sign addr (Req.get object_id 0 0) nodes st there
                (request_round_trip (Req.get object_id 0 0) id_fits) Small-get
                (few_shards v few all)
                (response_round_trip (Resp.shards v)
                  (few_count (length v) few, All-mapped (λ s. In s made) Format.Fits v fits all))
              ∙ ap (λ ns. (ok (Resp.shards v), ns)) (insert_same addr st nodes there);
          only_made = all;
          all_held = λ s (u, at_u, e).
              let eq = some_cancel (sym at_u ∙ there) in
              let e' = ap (λ (x : Store). get_by_hash key (shard_hash s) x) (sym eq) ∙ e in
              (In-get key s st node.filed).1 (shard_hash s, e');
        },
      )
