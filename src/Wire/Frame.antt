-- ===== src/Wire/Frame.antt =====
-- Frames of crates/holofs-wire/src/wire.rs: [u32 len BE][len bytes payload]. A stream is the list of
-- the bytes on it; how they are split over socket reads is not modelled.
pub mod Accepts
use holofs.Prelude.{
  ℕ, ◌*◌, ◌≤◌, ◌^◌, ◌%◌, ◌++◌, ◌≡◌, refl, sym, ◌∙◌, ap, List, [], ◌∷◌, length, ltb, arith,
  if◌then◌else◌, ge→ltb, append-nil, append_assoc, All, flat_map,
}
use holofs.Codec.Io.{Result, ok, err, invalid_input, invalid_data}
use holofs.Codec.Bytes.{to_be_bytes}
use holofs.Codec.Cursor.{Reader, fail, ◌>>=◌, take, u32, repeat, run}
use holofs.Codec.Reads.{Reads, Reads-bind, Reads-take, Reads-u32, Reads-repeat, Reads-run}

abbrev pub max_frame : ℕ
max_frame = 64 * 1024 * 1024

-- Appends a frame to the stream `w`.
unfoldable pub write_frame : List ℕ → List ℕ → Result (List ℕ)
write_frame w bytes =
    if ltb max_frame (length bytes)
    then err invalid_input
    else ok (w ++ (to_be_bytes 4 (length bytes % 2 ^ 32) ++ bytes))

unfoldable pub read_frame : Reader (List ℕ)
read_frame = do len ← u32; if ltb max_frame len then fail invalid_data else take len

abbrev go_on : Result (List ℕ) → (List ℕ → Result (List ℕ)) → Result (List ℕ)
go_on (ok w) rest = rest w
go_on (err e) rest = err e

-- A client that writes one frame after another, and stops at the first error.
unfoldable pub write_frames : List ℕ → List (List ℕ) → Result (List ℕ)
write_frames w [] = ok w
write_frames w (m ∷ ms) = go_on (write_frame w m) (λ w'. write_frames w' ms)

unfoldable pub frame : List ℕ → List ℕ
frame m = to_be_bytes 4 (length m % 2 ^ 32) ++ m

abbrev pub Small : List ℕ → Type 0
Small m = length m ≤ max_frame

pub Reads-frame : (m : List ℕ) → Small m → Reads read_frame m (frame m)
unfolding read_frame frame
Reads-frame m h =
    Reads-bind _ (Reads-u32 _ (omega arith))
      (rw (ge→ltb max_frame (length m % 2 ^ 32) (omega arith)) (Reads-take _ m (omega arith)))

pub write_frame-ok : (w m : List ℕ) → Small m → write_frame w m ≡ ok (w ++ frame m)
unfolding write_frame frame
write_frame-ok w m h = rw (ge→ltb max_frame (length m) h)

write_frames-ok :
    (w : List ℕ) (ms : List (List ℕ))
    → All Small ms
    → write_frames w ms ≡ ok (w ++ flat_map frame ms)
unfolding write_frames
write_frames-ok w [] h = ap ok (sym (append-nil w))
write_frames-ok w (m ∷ ms) h =
    ap (λ r. go_on r (λ w'. write_frames w' ms)) (write_frame-ok w m h.0)
    ∙ write_frames-ok (w ++ frame m) ms h.1
    ∙ ap ok (append_assoc w (frame m) (flat_map frame ms))

-- A stream of messages of at most `max_frame` bytes is written without an error, and reading as many
-- frames from it returns the messages in their order.
pub read_frames-write_frames :
    (ms : List (List ℕ))
    → All Small ms
    → (stream : List ℕ) × (write_frames [] ms ≡ ok stream)
      × (run (repeat (length ms) read_frame) stream ≡ ok ms)
read_frames-write_frames ms h = (
  flat_map frame ms,
  write_frames-ok [] ms h,
  Reads-run (Reads-repeat read_frame frame Small Reads-frame ms h),
)
