-- ===== src/Wire/Tests.antt =====
-- Tests and instances of the theorems on crates/holofs-wire/src/wire.rs.
use holofs.Prelude.{ℕ, ◌≡◌, ◌↔◌, refl, List, [], ◌∷◌, ◌++◌, arith, cons_ne_nil}
use holofs.Shard.{Shard}
use holofs.Codec.Io.{ok, err, unexpected_eof, invalid_data, map_ok}
use holofs.Codec.Bytes.{to_be_bytes, from_be_bytes}
use holofs.Codec.Cursor.{run, repeat, take, pure, u8, u32, fail, ◌>>=◌}
use holofs.Wire.Request
use holofs.Wire.Request.{Request}
use holofs.Wire.Request.RoundTrip.{request_round_trip, request_truncated}
use holofs.Wire.Response
use holofs.Wire.Response.{Response}
use holofs.Wire.Response.RoundTrip.{response_round_trip, response_truncated}
use holofs.Wire.Frame.{write_frame, read_frame, write_frames, read_frames-write_frames}
use holofs.Wire.Frame.Accepts.{Framed, read_frame-write_frame_iff}

abbrev some_shard : Shard
some_shard = record { coeffs = 1 ∷ 2 ∷ []; payload = 0xaa ∷ 0xbb ∷ 0xcc ∷ [] }

abbrev put_request : Request
put_request = Request.put 0xdeadbeefcafe 2 1 some_shard

abbrev get_request : Request
get_request = Request.get 42 0 3

abbrev shards_response : Response
shards_response = Response.shards (some_shard ∷ some_shard ∷ [])

-- the bytes of a Get
get_bytes : Request.encode get_request ≡ 2 ∷ 0 ∷ 0 ∷ 0 ∷ 0 ∷ 0 ∷ 0 ∷ 0 ∷ 42 ∷ 0 ∷ 3 ∷ []
unfolding Request.encode to_be_bytes
get_bytes = refl

unknown_op : Request.decode (0xee ∷ []) ≡ err invalid_data
unfolding Request.decode Request.read_request Request.decode_op run map_ok u8 take pure fail ◌>>=◌
unknown_op = refl

request_round_trip_example : Request.decode (Request.encode put_request) ≡ ok put_request
request_round_trip_example = request_round_trip put_request (omega arith)

request_truncated_example :
    Request.decode (2 ∷ 0 ∷ 0 ∷ 0 ∷ 0 ∷ 0 ∷ 0 ∷ 0 ∷ 42 ∷ 0 ∷ []) ≡ err unexpected_eof
request_truncated_example =
    request_truncated get_request (2 ∷ 0 ∷ 0 ∷ 0 ∷ 0 ∷ 0 ∷ 0 ∷ 0 ∷ 42 ∷ 0 ∷ []) (3 ∷ [])
      (omega arith) get_bytes (cons_ne_nil 3 [])

response_round_trip_example : Response.decode (Response.encode shards_response) ≡ ok shards_response
response_round_trip_example = response_round_trip shards_response (omega arith)

pong_bytes : Response.encode (Response.stat_resp 7) ≡ 3 ∷ 0 ∷ 0 ∷ 0 ∷ 7 ∷ []
unfolding Response.encode to_be_bytes
pong_bytes = refl

response_truncated_example : Response.decode (3 ∷ 0 ∷ 0 ∷ []) ≡ err unexpected_eof
response_truncated_example =
    response_truncated (Response.stat_resp 7) (3 ∷ 0 ∷ 0 ∷ []) (0 ∷ 7 ∷ []) (omega arith) pong_bytes
      (cons_ne_nil 0 (7 ∷ []))

abbrev two_messages : List (List ℕ)
two_messages = (1 ∷ 2 ∷ []) ∷ [] ∷ []

read_frames-write_frames_example :
    (stream : List ℕ) × (write_frames [] two_messages ≡ ok stream)
    × (run (repeat 2 read_frame) stream ≡ ok two_messages)
read_frames-write_frames_example = read_frames-write_frames two_messages (omega arith)

read_frame-write_frame_iff_example :
    ((read_frame (0 ∷ 0 ∷ 0 ∷ 2 ∷ 7 ∷ 8 ∷ 9 ∷ []) ≡ ok (7 ∷ 8 ∷ [], 9 ∷ []))
      ↔ Framed (7 ∷ 8 ∷ []) (9 ∷ []) (0 ∷ 0 ∷ 0 ∷ 2 ∷ 7 ∷ 8 ∷ 9 ∷ []))
    × (((out : List ℕ) × (write_frame [] (7 ∷ 8 ∷ []) ≡ ok out)
          × (0 ∷ 0 ∷ 0 ∷ 2 ∷ 7 ∷ 8 ∷ 9 ∷ [] ≡ out ++ 9 ∷ []))
        ↔ Framed (7 ∷ 8 ∷ []) (9 ∷ []) (0 ∷ 0 ∷ 0 ∷ 2 ∷ 7 ∷ 8 ∷ 9 ∷ []))
read_frame-write_frame_iff_example =
    read_frame-write_frame_iff (0 ∷ 0 ∷ 0 ∷ 2 ∷ 7 ∷ 8 ∷ 9 ∷ []) (7 ∷ 8 ∷ []) (9 ∷ []) (omega arith)

-- the reader refuses a header of one byte more than the limit, and the writer makes the frame of the test
too_long : run read_frame (4 ∷ 0 ∷ 0 ∷ 1 ∷ 9 ∷ []) ≡ err invalid_data
unfolding read_frame run map_ok u32 take pure fail from_be_bytes ◌>>=◌
too_long = refl

framed : write_frame [] (7 ∷ 8 ∷ []) ≡ ok (0 ∷ 0 ∷ 0 ∷ 2 ∷ 7 ∷ 8 ∷ [])
unfolding write_frame to_be_bytes
framed = refl
