-- ===== src/Wire/Response.antt =====
-- `Response` of crates/holofs-wire/src/wire.rs, its encoder and its decoder.
pub mod RoundTrip
use holofs.Prelude.{
  ℕ, ◌^◌, ◌%◌, ◌++◌, List, [], ◌∷◌, ◌==◌, if◌then◌else◌, Option, none, some, length, flat_map, not,
}
use holofs.Shard.{Shard}
use holofs.Codec.Io.{Result, invalid_data}
use holofs.Codec.Bytes.{to_be_bytes}
use holofs.Codec.Utf8.{from_utf8_lossy}
use holofs.Codec.Cursor.{Reader, pure, fail, ◌>>=◌, take, u8, u32, repeat, run}
use holofs.Wire.ShardFormat.{encode_shard, decode_shard}

pub data Response : Type 0 where
  pong ack : Response
  shards : List Shard → Response
  stat_resp : (total_shards : ℕ) → Response
  audit_resp : (shard : Option Shard) → Response
  auth_challenge_ok : (signature : List ℕ) → Response
  error : (message : List ℕ) → Response

abbrev rsp_pong : ℕ
rsp_pong = 0x00

abbrev rsp_ack : ℕ
rsp_ack = 0x01

abbrev rsp_shards : ℕ
rsp_shards = 0x02

abbrev rsp_stat : ℕ
rsp_stat = 0x03

abbrev rsp_audit : ℕ
rsp_audit = 0x04

abbrev rsp_auth : ℕ
rsp_auth = 0x05

abbrev rsp_err : ℕ
rsp_err = 0xff

unfoldable pub encode : Response → List ℕ
encode pong = rsp_pong ∷ []
encode ack = rsp_ack ∷ []
encode (shards s) = rsp_shards ∷ (to_be_bytes 4 (length s % 2 ^ 32) ++ flat_map encode_shard s)
encode (stat_resp total_shards) = rsp_stat ∷ to_be_bytes 4 total_shards
encode (audit_resp none) = rsp_audit ∷ 0 ∷ []
encode (audit_resp (some s)) = rsp_audit ∷ 1 ∷ encode_shard s
encode (auth_challenge_ok signature) = rsp_auth ∷ signature
encode (error message) = rsp_err ∷ (to_be_bytes 4 (length message % 2 ^ 32) ++ message)

-- The `match tag` of `decode`.
unfoldable pub decode_tag : ℕ → Reader Response
decode_tag tag =
    if tag == rsp_pong
    then pure pong
    else if tag == rsp_ack
    then pure ack
    else if tag == rsp_shards
    then (do n ← u32; v ← repeat n decode_shard; pure (shards v))
    else if tag == rsp_stat
    then (do total_shards ← u32; pure (stat_resp total_shards))
    else if tag == rsp_audit
    then (do
      present ← u8
      if not (present == 0)
          then (do shard ← decode_shard; pure (audit_resp (some shard)))
          else pure (audit_resp none))
    else if tag == rsp_auth
    then (do raw ← take 64; pure (auth_challenge_ok raw))
    else if tag == rsp_err
    then (do n ← u32; bytes ← take n; pure (error (from_utf8_lossy bytes)))
    else fail invalid_data

unfoldable pub read_response : Reader Response
read_response = do tag ← u8; decode_tag tag

unfoldable pub decode : List ℕ → Result Response
decode buf = run read_response buf
