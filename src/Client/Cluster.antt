-- ===== src/Client/Cluster.antt =====
-- The client of crates/holofs-client/src/client.rs on a cluster of the nodes of
-- crates/holofs-storage/src/node_service.rs: each address leads to a node that serves its store.
use holofs.Prelude.{
  ℕ, zero, suc, ◌≡◌, refl, sym, ap, ◌∙◌, List, [], append-nil, Option, none, some, length,
}
use holofs.Codec.Io.{ErrorKind, Result, ok, err, connection_refused, map_ok}
use holofs.Codec.Cursor.{run}
use holofs.Wire.Frame.{Small, frame, write_frame, read_frame, Reads-frame, write_frame-ok}
use holofs.Wire.Request as Req
use holofs.Wire.Request.{Request}
use holofs.Wire.Response as Resp
use holofs.Wire.Response.{Response}
use holofs.Storage.HashMap.{find, insert}
use holofs.Storage.{hash_keyed, Store}
use holofs.Storage.Handler.{Served, handle_request, serve, handle_connection}
use holofs.Client.{Network, Address, decode_frame, read_response, received, call_over, rpc}

abbrev pub Nodes : Type 0
Nodes = List (Address × Store)

module _ (sign : List ℕ → List ℕ) where
  abbrev pub refused : Option Store → Option ErrorKind
  refused none = some connection_refused
  refused (some st) = none

  abbrev pub connect_to : Address → Nodes → Option ErrorKind × Nodes
  connect_to addr nodes = (refused (find addr nodes), nodes)

  abbrev pub answered : Address → Nodes → Served → Result (List ℕ) × Nodes
  answered addr nodes served = (ok served.sent, insert addr served.store nodes)

  abbrev pub exchange_at : Address → List ℕ → Nodes → Option Store → Result (List ℕ) × Nodes
  exchange_at addr bytes nodes none = (err connection_refused, nodes)
  exchange_at addr bytes nodes (some st) = answered addr nodes (handle_connection sign [] bytes st)

  abbrev pub exchange_with : Address → List ℕ → Nodes → Result (List ℕ) × Nodes
  exchange_with addr bytes nodes = exchange_at addr bytes nodes (find addr nodes)

  -- The file systems of the nodes do what they are asked to.
  abbrev pub cluster : Network
  cluster = record { World = Nodes; connect = connect_to; exchange = exchange_with }

  nothing_left : read_frame [] ≡ err ErrorKind.unexpected_eof
  unfolding read_frame holofs.Codec.Cursor.◌>>=◌ holofs.Codec.Cursor.u32 holofs.Codec.Cursor.take
  nothing_left = refl

  serve-end :
      (n : ℕ) (st : Store) (out : List ℕ)
      → let served = serve sign n [] [] st out in (served.store ≡ st) × (served.sent ≡ out)
  unfolding serve
  serve-end zero st out = (refl, refl)
  serve-end (suc n) st out = rw (nothing_left, serve) (refl, refl)

  read_one : (m : List ℕ) → Small m → read_frame (frame m) ≡ ok (m, [])
  read_one m h = ap read_frame (sym (append-nil (frame m))) ∙ (Reads-frame m h).at []

  -- A connection over which one request comes is answered by what the handler returns.
  serve-one :
      (n : ℕ) (req : Request) (st : Store)
      → Req.decode (Req.encode req) ≡ ok req
      → Small (Req.encode req)
      → let (st', resp) = handle_request sign none req st in
        Small (Resp.encode resp)
        → let served = serve sign (suc n) [] (frame (Req.encode req)) st [] in
          (served.store ≡ st') × (served.sent ≡ frame (Resp.encode resp))
  unfolding serve
  serve-one n req st dec small small' =
      let (st', resp) = handle_request sign none req st in
      let (e1, e2) = serve-end n st' (frame (Resp.encode resp)) in
      rw (read_one (Req.encode req) small, serve)
        (rw dec (rw (write_frame-ok [] (Resp.encode resp) small') (e1, e2)))

  -- A call of a node that is there has the reply of its handler, and leaves its store behind.
  pub rpc-cluster :
      (addr : Address) (req : Request) (nodes : Nodes) (st : Store)
      → find addr nodes ≡ some st
      → Req.decode (Req.encode req) ≡ ok req
      → Small (Req.encode req)
      → let (st', resp) = handle_request sign none req st in
        Small (Resp.encode resp)
        → Resp.decode (Resp.encode resp) ≡ ok resp
        → rpc cluster addr req nodes ≡ (ok resp, insert addr st' nodes)
  unfolding rpc handle_connection read_response run map_ok
  rpc-cluster addr req nodes st there dec small small' dec' =
      let (st', resp) = handle_request sign none req st in
      let input = frame (Req.encode req) in
      let (e1, e2) = serve-one (length input) req st dec small small' in
      let out = insert addr st' nodes in
      ap (λ c. call_over cluster addr (refused c, nodes) (write_frame [] (Req.encode req))) there
      ∙ ap (call_over cluster addr (none, nodes)) (write_frame-ok [] (Req.encode req) small)
      ∙ ap (λ c. received cluster (exchange_at addr input nodes c)) there
      ∙ (λ i. (read_response (ok (e2 i)), insert addr (e1 i) nodes))
      ∙ ap (λ r. (r, out))
          (ap (λ x. decode_frame (map_ok (λ t. t.0) x)) (read_one (Resp.encode resp) small') ∙ dec')
