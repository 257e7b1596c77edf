-- ===== src/Wire/Response/RoundTrip.antt =====
-- Decoding a `Response` undoes encoding it, and a message that was cut short is reported as such.
use holofs.Prelude.{ℕ, ◌<◌, ◌^◌, ◌++◌, ◌≡◌, ◌≢◌, List, [], length, arith, true, none, some, All}
use native.Mathlib.Nat.{mod-eq_of_lt}
use holofs.Codec.Io.{ok, err, unexpected_eof}
use holofs.Codec.Utf8.{is_utf8, from_utf8_lossy-valid}
use holofs.Codec.Reads.{
  Reads, Reads-bind, Reads-last, Reads-pure, Reads-take, Reads-u8, Reads-u32, Reads-repeat,
  Reads-run,
}
use holofs.Codec.Extends.{Extends, extends_rules, run_prefix}
use holofs.Wire.ShardFormat.{
  encode_shard, decode_shard, Fits, Reads-decode_shard, Extends-decode_shard,
}
use holofs.Wire.Response.{
  Response, pong, ack, shards, stat_resp, audit_resp, auth_challenge_ok, error, encode, decode_tag,
  read_response, decode,
}

-- The fields are in the ranges of their Rust types (an error's message is text), and lengths fit
-- their length fields.
abbrev pub InRange : Response → Type 0
InRange pong = Unit
InRange ack = Unit
InRange (shards s) = (length s < 2 ^ 32) × All Fits s
InRange (stat_resp total_shards) = total_shards < 2 ^ 32
InRange (audit_resp none) = Unit
InRange (audit_resp (some s)) = Fits s
InRange (auth_challenge_ok signature) = length signature ≡ 64
InRange (error message) = (length message < 2 ^ 32) × (is_utf8 message ≡ true)

Reads-response : (r : Response) → InRange r → Reads read_response r (encode r)
unfolding read_response decode_tag encode
Reads-response pong h = Reads-bind _ (Reads-u8 0) (Reads-pure pong)
Reads-response ack h = Reads-bind _ (Reads-u8 1) (Reads-pure ack)
Reads-response (shards s) h = Reads-bind _ (Reads-u8 2) (
    Reads-bind _ (Reads-u32 _ (omega arith)) (
      Reads-last _
        (rw (mod-eq_of_lt h.0)
          (Reads-repeat decode_shard encode_shard Fits Reads-decode_shard s h.1))
        (Reads-pure (shards s))))
Reads-response (stat_resp n) h =
    Reads-bind _ (Reads-u8 3) (Reads-last _ (Reads-u32 n h) (Reads-pure (stat_resp n)))
Reads-response (audit_resp none) h =
    Reads-bind _ (Reads-u8 4) (Reads-bind _ (Reads-u8 0) (Reads-pure (audit_resp none)))
Reads-response (audit_resp (some s)) h = Reads-bind _ (Reads-u8 4) (
    Reads-bind _ (Reads-u8 1)
      (Reads-last _ (Reads-decode_shard s h) (Reads-pure (audit_resp (some s)))))
Reads-response (auth_challenge_ok raw) h =
    Reads-bind _ (Reads-u8 5)
      (Reads-last _ (Reads-take 64 raw h) (Reads-pure (auth_challenge_ok raw)))
Reads-response (error m) h = Reads-bind _ (Reads-u8 0xff) (
    Reads-bind _ (Reads-u32 _ (omega arith)) (
      Reads-last _ (Reads-take _ m (omega (arith, h.0)))
        (rw (from_utf8_lossy-valid m h.1) (Reads-pure (error m)))))

Extends-decode_tag : (tag : ℕ) → Extends (decode_tag tag)
unfolding decode_tag
Extends-decode_tag tag = search (extends_rules, Extends-decode_shard) depth 20

Extends-read_response : Extends read_response
unfolding read_response
Extends-read_response = search (extends_rules, Extends-decode_tag)

-- Every response whose fields are in range is decoded from its own encoding.
pub response_round_trip : (r : Response) → InRange r → decode (encode r) ≡ ok r
unfolding decode
response_round_trip r h = Reads-run (Reads-response r h)

-- A proper prefix of a response's encoding is never taken for a message: it is reported as truncated.
pub response_truncated :
    (r : Response) (xs ys : List ℕ)
    → InRange r
    → encode r ≡ xs ++ ys
    → ys ≢ []
    → decode xs ≡ err unexpected_eof
unfolding decode
response_truncated r xs ys h e more =
    run_prefix Extends-read_response xs ys (rw e at (Reads-response r h)) more
