-- ===== src/Wire/Request.antt =====
-- `Request` of crates/holofs-wire/src/wire.rs, its encoder and its decoder.
pub mod RoundTrip
use holofs.Prelude.{ℕ, ◌<◌, ◌^◌, ◌++◌, List, [], ◌∷◌, ◌==◌, if◌then◌else◌}
use holofs.Shard.{Shard}
use holofs.Codec.Io.{Result, invalid_data}
use holofs.Codec.Bytes.{to_be_bytes}
use holofs.Codec.Cursor.{Reader, pure, fail, ◌>>=◌, take, u8, u64, run}
use holofs.Wire.ShardFormat.{encode_shard, decode_shard}

pub data Request : Type 0 where
  ping : Request
  put : (object_id channel layer : ℕ) → Shard → Request
  get : (object_id channel layer : ℕ) → Request
  purge : (object_id : ℕ) → Request
  stat : Request
  audit : (object_id channel layer : ℕ) (shard_hash : List ℕ) → Request
  auth_challenge : (nonce : List ℕ) → Request

abbrev op_ping : ℕ
op_ping = 0x00

abbrev op_put : ℕ
op_put = 0x01

abbrev op_get : ℕ
op_get = 0x02

abbrev op_purge : ℕ
op_purge = 0x03

abbrev op_stat : ℕ
op_stat = 0x04

abbrev op_audit : ℕ
op_audit = 0x05

abbrev op_auth : ℕ
op_auth = 0x06

unfoldable pub encode : Request → List ℕ
encode ping = op_ping ∷ []
encode (put object_id channel layer shard) =
    op_put ∷ (to_be_bytes 8 object_id ++ (channel ∷ layer ∷ encode_shard shard))
encode (get object_id channel layer) = op_get ∷ (to_be_bytes 8 object_id ++ (channel ∷ layer ∷ []))
encode (purge object_id) = op_purge ∷ to_be_bytes 8 object_id
encode stat = op_stat ∷ []
encode (audit object_id channel layer shard_hash) =
    op_audit ∷ (to_be_bytes 8 object_id ++ (channel ∷ layer ∷ shard_hash))
encode (auth_challenge nonce) = op_auth ∷ nonce

-- The `match op` of `decode`.
unfoldable pub decode_op : ℕ → Reader Request
decode_op op =
    if op == op_ping
    then pure ping
    else if op == op_put
    then (do
      object_id ← u64
      channel ← u8
      layer ← u8
      shard ← decode_shard
      pure (put object_id channel layer shard))
    else if op == op_get
    then (do object_id ← u64; channel ← u8; layer ← u8; pure (get object_id channel layer))
    else if op == op_purge
    then (do object_id ← u64; pure (purge object_id))
    else if op == op_stat
    then pure stat
    else if op == op_audit
    then (do
      object_id ← u64
      channel ← u8
      layer ← u8
      raw ← take 32
      pure (audit object_id channel layer raw))
    else if op == op_auth
    then (do raw ← take 32; pure (auth_challenge raw))
    else fail invalid_data

unfoldable pub read_request : Reader Request
read_request = do op ← u8; decode_op op

unfoldable pub decode : List ℕ → Result Request
decode buf = run read_request buf
