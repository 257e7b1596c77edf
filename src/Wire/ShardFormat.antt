-- ===== src/Wire/ShardFormat.antt =====
-- The shard serialisation of crates/holofs-wire/src/wire.rs:
-- [u16 K BE][u32 plen BE][K bytes coeffs][plen bytes payload].
use holofs.Prelude.{ℕ, ◌<◌, ◌^◌, ◌%◌, ◌++◌, List, length, arith}
use holofs.Shard.{Shard}
use holofs.Codec.Bytes.{to_be_bytes}
use holofs.Codec.Cursor.{Reader, pure, ◌>>=◌, take, u16, u32}
use holofs.Codec.Reads.{Reads, Reads-bind, Reads-last, Reads-pure, Reads-take, Reads-u16, Reads-u32}
use holofs.Codec.Extends.{Extends, extends_rules}

-- The casts `as u16` and `as u32` keep the low bits of a length.
unfoldable pub encode_shard : Shard → List ℕ
encode_shard s =
    to_be_bytes 2 (length s.coeffs % 2 ^ 16)
    ++ (to_be_bytes 4 (length s.payload % 2 ^ 32) ++ (s.coeffs ++ s.payload))

unfoldable pub decode_shard : Reader Shard
decode_shard = do
  k ← u16
  plen ← u32
  coeffs ← take k
  payload ← take plen
  pure (record { coeffs = coeffs; payload = payload })

-- The lengths fit the format's length fields.
pub record Fits (s : Shard) : Type 0 where
  pub coeffs : length s.coeffs < 2 ^ 16
  pub payload : length s.payload < 2 ^ 32

pub Reads-decode_shard : (s : Shard) → Fits s → Reads decode_shard s (encode_shard s)
unfolding decode_shard encode_shard
Reads-decode_shard s h = Reads-bind _ (Reads-u16 _ (omega arith)) (
    Reads-bind _ (Reads-u32 _ (omega arith)) (
      Reads-bind _ (Reads-take _ s.coeffs (omega (arith, h.coeffs)))
        (Reads-last _ (Reads-take _ s.payload (omega (arith, h.payload))) (Reads-pure s))))

pub Extends-decode_shard : Extends decode_shard
unfolding decode_shard
Extends-decode_shard = search extends_rules
