-- ===== src/Client.antt =====
-- crates/holofs-client/src/client.rs: the client of a cluster. The network is a parameter: what it does with
-- the bytes that are sent, and what it sends back.
pub mod Gather
pub mod Opaque
pub mod Integrity
pub mod OpaqueIntegrity
pub mod Cluster
pub mod Ready
pub mod AfterPut
pub mod Transport
pub mod Complete
pub mod Places
pub mod OpaqueComplete
pub mod Repair
pub mod GoodHashes
pub mod RepairIntegrity
mod Tests
mod RepairTests
use holofs.Prelude.{ℕ, Bool, true, false, List, [], Option, none, some, ◌≡◌}
use holofs.Codec.Io.{ErrorKind, Result, ok, err}
use holofs.Codec.Cursor.{run}
use holofs.Wire.Frame.{write_frame, read_frame}
use holofs.Wire.Request as Req
use holofs.Wire.Request.{Request}
use holofs.Wire.Response as Resp
use holofs.Wire.Response.{Response}

-- The texts of the errors are left out.
pub data ClientError : Type 0 where
  io : ErrorKind → ClientError
  protocol : ClientError
  layer_lost : (channel layer : ℕ) → ClientError

-- `panic` is a read out of range or a failed assertion.
pub data Outcome (A : Type 0) : Type 0 where
  done : A → Outcome A
  failed : ClientError → Outcome A
  panic : Outcome A

abbrev pub Address : Type 0
Address = List ℕ

-- `connect` opens a connection, or fails; `exchange` sends bytes over a new connection and returns the bytes
-- that the peer sends, or the error of the transport.
pub record Network : Type 1 where
  pub World : Type 0
  pub connect : Address → World → Option ErrorKind × World
  pub exchange : Address → List ℕ → World → Result (List ℕ) × World

-- A call of the client: it may change the world, and has an outcome.
abbrev pub M : Type 0 → Type 0 → Type 0
M W A = W → Outcome A × W

abbrev pub bind : {W A B : Type 0} → Outcome A × W → (A → M W B) → Outcome B × W
bind (done a, w) f = f a w
bind (failed e, w) f = (failed e, w)
bind (panic, w) f = (panic, w)

infixl 5 ◌>>=◌ ◌>>◌
abbrev pub ◌>>=◌ : {W A B : Type 0} → M W A → (A → M W B) → M W B
◌>>=◌ m f w = bind (m w) f

abbrev pub ◌>>◌ : {W B : Type 0} → M W (Unit {0}) → M W B → M W B
m >> k = m >>= λ _. k

abbrev pub pure : {W A : Type 0} → A → M W A
pure a w = (done a, w)

abbrev pub fail : {W A : Type 0} → ClientError → M W A
fail e w = (failed e, w)

-- A read that may be out of range.
abbrev pub or_panic : {W A : Type 0} → Option A → M W A
or_panic none w = (panic, w)
or_panic (some a) w = (done a, w)

abbrev pub assert : {W : Type 0} → Bool → M W (Unit {0})
assert true w = (done tt, w)
assert false w = (panic, w)

-- `?` on an `io::Result`.
abbrev pub or_io : {W A : Type 0} → Result A × W → Outcome A × W
or_io (ok a, w) = (done a, w)
or_io (err e, w) = (failed (io e), w)

abbrev pub decode_frame : Result (List ℕ) → Result Response
decode_frame (err e) = err e
decode_frame (ok buf) = Resp.decode buf

-- What the bytes of the peer say.
unfoldable pub read_response : Result (List ℕ) → Result Response
read_response (err e) = err e
read_response (ok input) = decode_frame (run read_frame input)

module _ (net : Network) where
  abbrev pub received : Result (List ℕ) × net.World → Result Response × net.World
  received (input, w) = (read_response input, w)

  -- What is done with a connection and a frame.
  abbrev pub call_over :
      Address → Option ErrorKind × net.World → Result (List ℕ) → Result Response × net.World
  call_over addr (some e, w) framed = (err e, w)
  call_over addr (none, w) (err e) = (err e, w)
  call_over addr (none, w) (ok bytes) = received (net.exchange addr bytes w)

  unfoldable pub rpc : Address → Request → net.World → Result Response × net.World
  rpc addr req w = call_over addr (net.connect addr w) (write_frame [] (Req.encode req))

  -- `rpc(addr, req).await?`
  unfoldable pub ask : Address → Request → M net.World Response
  ask addr req w = or_io (rpc addr req w)

  unfoldable pub expect_ack : Response → M net.World (Unit {0})
  expect_ack Resp.ack = pure tt
  expect_ack other = fail protocol

  -- A request whose reply is to be `Ack`.
  unfoldable pub command : Address → Request → M net.World (Unit {0})
  command addr req = do r ← ask addr req; expect_ack r
