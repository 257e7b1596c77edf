-- ===== src/Wire/Request/RoundTrip.antt =====
-- Decoding a `Request` undoes encoding it, and a message that was cut short is reported as such.
use holofs.Prelude.{ℕ, ◌<◌, ◌^◌, ◌++◌, ◌≡◌, ◌≢◌, List, [], length}
use holofs.Codec.Io.{ok, err, unexpected_eof}
use holofs.Codec.Reads.{
  Reads, Reads-bind, Reads-last, Reads-pure, Reads-take, Reads-u8, Reads-u64, Reads-run,
}
use holofs.Codec.Extends.{Extends, extends_rules, run_prefix}
use holofs.Wire.ShardFormat.{Fits, Reads-decode_shard, Extends-decode_shard}
use holofs.Wire.Request.{
  Request, ping, put, get, purge, stat, audit, auth_challenge, encode, decode_op, read_request,
  decode,
}

-- The fields are in the ranges of their Rust types, and a shard's lengths fit their length fields.
abbrev pub InRange : Request → Type 0
InRange ping = Unit
InRange (put object_id channel layer shard) = (object_id < 2 ^ 64) × Fits shard
InRange (get object_id channel layer) = object_id < 2 ^ 64
InRange (purge object_id) = object_id < 2 ^ 64
InRange stat = Unit
InRange (audit object_id channel layer shard_hash) = (object_id < 2 ^ 64) × (length shard_hash ≡ 32)
InRange (auth_challenge nonce) = length nonce ≡ 32

Reads-request : (r : Request) → InRange r → Reads read_request r (encode r)
unfolding read_request decode_op encode
Reads-request ping h = Reads-bind _ (Reads-u8 0) (Reads-pure ping)
Reads-request (put o c l s) h = Reads-bind _ (Reads-u8 1) (
    Reads-bind _ (Reads-u64 o h.0) (
      Reads-bind _ (Reads-u8 c) (
        Reads-bind _ (Reads-u8 l)
          (Reads-last _ (Reads-decode_shard s h.1) (Reads-pure (put o c l s))))))
Reads-request (get o c l) h = Reads-bind _ (Reads-u8 2) (
    Reads-bind _ (Reads-u64 o h)
      (Reads-bind _ (Reads-u8 c) (Reads-bind _ (Reads-u8 l) (Reads-pure (get o c l)))))
Reads-request (purge o) h =
    Reads-bind _ (Reads-u8 3) (Reads-last _ (Reads-u64 o h) (Reads-pure (purge o)))
Reads-request stat h = Reads-bind _ (Reads-u8 4) (Reads-pure stat)
Reads-request (audit o c l raw) h = Reads-bind _ (Reads-u8 5) (
    Reads-bind _ (Reads-u64 o h.0) (
      Reads-bind _ (Reads-u8 c) (
        Reads-bind _ (Reads-u8 l)
          (Reads-last _ (Reads-take 32 raw h.1) (Reads-pure (audit o c l raw))))))
Reads-request (auth_challenge raw) h =
    Reads-bind _ (Reads-u8 6) (Reads-last _ (Reads-take 32 raw h) (Reads-pure (auth_challenge raw)))

Extends-decode_op : (op : ℕ) → Extends (decode_op op)
unfolding decode_op
Extends-decode_op op = search (extends_rules, Extends-decode_shard) depth 20

Extends-read_request : Extends read_request
unfolding read_request
Extends-read_request = search (extends_rules, Extends-decode_op)

-- Every request whose fields are in range is decoded from its own encoding.
pub request_round_trip : (r : Request) → InRange r → decode (encode r) ≡ ok r
unfolding decode
request_round_trip r h = Reads-run (Reads-request r h)

-- A proper prefix of a request's encoding is never taken for a message: it is reported as truncated.
pub request_truncated :
    (r : Request) (xs ys : List ℕ)
    → InRange r
    → encode r ≡ xs ++ ys
    → ys ≢ []
    → decode xs ≡ err unexpected_eof
unfolding decode
request_truncated r xs ys h e more =
    run_prefix Extends-read_request xs ys (rw e at (Reads-request r h)) more
