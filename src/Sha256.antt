-- ===== src/Sha256.antt =====
-- crates/holofs-core/src/hash.rs: SHA-256. A `u32` is a number below 2 ^ 32.
pub mod Compress
pub mod Hex
pub mod Stream
pub mod Digest
mod Tests
use holofs.Prelude.{
  ℕ, zero, suc, ◌+◌, ◌-◌, ◌*◌, ◌%◌, ◌^◌, min, ltb, List, [], ◌∷◌, ◌++◌, ◌==◌, if◌then◌else◌, length,
  set, take, drop, replicate, flat_map,
}
use holofs.Codec.Bytes.{to_be_bytes}
use holofs.Sha256.Compress.{h_init, process_block}

pub record Sha256 : Type 0 where
  pub h : List ℕ
  pub buf : List ℕ
  pub buf_len : ℕ
  pub total_len : ℕ

unfoldable pub new : Sha256
new = record { h = h_init; buf = replicate 64 0; buf_len = 0; total_len = 0 }

-- `buf[pos..pos + bytes.len()].copy_from_slice(bytes)`
unfoldable pub copy_at : ℕ → List ℕ → List ℕ → List ℕ
copy_at pos [] buf = buf
copy_at pos (b ∷ bytes) buf = copy_at (pos + 1) bytes (set buf pos b)

-- A full buffer is processed and starts again.
unfoldable pub flush : Sha256 → Sha256
flush s =
    if s.buf_len == 64
    then record { h = process_block s.h s.buf; buf = s.buf; buf_len = 0; total_len = s.total_len }
    else s

-- The loop of `update`. Each round takes at least one byte, so the number of bytes is enough fuel.
unfoldable pub absorb : ℕ → List ℕ → Sha256 → Sha256
absorb zero input s = s
absorb (suc n) [] s = s
absorb (suc n) (b ∷ bs) s =
    let input = b ∷ bs in
    let amount = min (64 - s.buf_len) (length input) in
    absorb n (drop amount input) (
      flush (record {
        h = s.h;
        buf = copy_at s.buf_len (take amount input) s.buf;
        buf_len = s.buf_len + amount;
        total_len = s.total_len;
      }))

unfoldable pub update : Sha256 → List ℕ → Sha256
update s input = absorb (length input) input (record {
  h = s.h;
  buf = s.buf;
  buf_len = s.buf_len;
  total_len = (s.total_len + length input) % 2 ^ 64;
})

-- The zeros from position `pos` up to `end`.
unfoldable pub clear_to : ℕ → ℕ → List ℕ → List ℕ
clear_to pos end buf = copy_at pos (replicate (end - pos) 0) buf

-- The end mark, after which a buffer with no room for the length is processed on its own.
unfoldable pub mark : Sha256 → Sha256
mark s =
    let buf = set s.buf s.buf_len 0x80 in
    let len = s.buf_len + 1 in
    if ltb 56 len
    then record {
      h = process_block s.h (clear_to len 64 buf);
      buf = clear_to len 64 buf;
      buf_len = 0;
      total_len = s.total_len;
    }
    else record { h = s.h; buf = buf; buf_len = len; total_len = s.total_len }

unfoldable pub finalize : Sha256 → List ℕ
finalize s =
    let bit_len = s.total_len * 8 % 2 ^ 64 in
    let marked = mark s in
    let block = copy_at 56 (to_be_bytes 8 bit_len) (clear_to marked.buf_len 56 marked.buf) in
    flat_map (to_be_bytes 4) (process_block marked.h block)

unfoldable pub sha256 : List ℕ → List ℕ
sha256 input = finalize (update new input)
