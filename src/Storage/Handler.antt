-- ===== src/Storage/Handler.antt =====
-- `handle_request` and `handle_connection` of crates/holofs-storage/src/node_service.rs. `sign` is
-- `NodeIdentity::sign_challenge`, which calls a cryptographic library.
use holofs.Prelude.{ℕ, zero, suc, ◌%◌, ◌^◌, List, [], ◌∷◌, Option, none, length}
use holofs.Codec.Io.{ErrorKind, Result, ok, err}
use holofs.Wire.Frame.{write_frame, read_frame}
use holofs.Wire.Request as Req
use holofs.Wire.Request.{Request}
use holofs.Wire.Response as Resp
use holofs.Wire.Response.{Response}
use holofs.Storage.{Store, put, get, get_by_hash, purge, total}

module _ (sign : List ℕ → List ℕ) where
  -- `fault` is the failure of the file system while the request is handled, if any.
  unfoldable pub handle_request : Option ℕ → Request → Store → Store × Response
  handle_request fault Req.ping st = (st, Resp.pong)
  handle_request fault (Req.put object_id channel layer shard) st =
      ((put fault (object_id, channel, layer) shard st).0, Resp.ack)
  handle_request fault (Req.get object_id channel layer) st =
      (st, Resp.shards (get (object_id, channel, layer) st))
  handle_request fault (Req.purge object_id) st = ((purge object_id st).0, Resp.ack)
  handle_request fault Req.stat st = (st, Resp.stat_resp (total st % 2 ^ 32))
  handle_request fault (Req.audit object_id channel layer shard_hash) st =
      (st, Resp.audit_resp (get_by_hash (object_id, channel, layer) shard_hash st))
  handle_request fault (Req.auth_challenge nonce) st = (st, Resp.auth_challenge_ok (sign nonce))

-- The faults of the requests to come; after the last there is none.
abbrev pub next_fault : List (Option ℕ) → Option ℕ
next_fault [] = none
next_fault (f ∷ fs) = f

abbrev pub later_faults : List (Option ℕ) → List (Option ℕ)
later_faults [] = []
later_faults (f ∷ fs) = fs

-- What a connection leaves behind: the store, the bytes that were sent, and the error that ended it.
pub record Served : Type 0 where
  pub store : Store
  pub sent : List ℕ
  pub error : ErrorKind

module _ (sign : List ℕ → List ℕ) where
  abbrev served : Store → List ℕ → ErrorKind → Served
  served st out e = record { store = st; sent = out; error = e }

  abbrev on_sent : Result (List ℕ) → Store → List ℕ → (List ℕ → Served) → Served
  on_sent (ok out') st out rest = rest out'
  on_sent (err e) st out rest = served st out e

  abbrev on_request :
      Result Request → Option ℕ → Store → List ℕ → (Store → List ℕ → Served) → Served
  on_request (err e) fault st out rest = served st out e
  on_request (ok req) fault st out rest =
      let (st', resp) = handle_request sign fault req st in
      on_sent (write_frame out (Resp.encode resp)) st' out (rest st')

  -- The loop of `handle_connection` over the bytes that the peer sends. Each round reads at least the four
  -- bytes of a length, so that the number of bytes and one more is enough fuel.
  unfoldable pub serve : ℕ → List (Option ℕ) → List ℕ → Store → List ℕ → Served
  serve zero faults input st out = served st out ErrorKind.unexpected_eof
  serve (suc n) faults input st out = elim (read_frame input) [
    | err e ↦ served st out e
    | ok (buf, input') ↦
        on_request (Req.decode buf) (next_fault faults) st out
          (λ st' out'. serve n (later_faults faults) input' st' out')
  ]

  unfoldable pub handle_connection : List (Option ℕ) → List ℕ → Store → Served
  handle_connection faults input st = serve (suc (length input)) faults input st []

-- The requests of all connections in the order in which they take the lock, each with the fault that meets it.
abbrev pub Schedule : Type 0
Schedule = List (Option ℕ × Request)

module _ (sign : List ℕ → List ℕ) where
  unfoldable pub handle_all : Schedule → Store → Store × List Response
  handle_all [] st = (st, [])
  handle_all ((fault, req) ∷ reqs) st =
      let (st', resp) = handle_request sign fault req st in
      let (st'', resps) = handle_all reqs st' in (st'', resp ∷ resps)
