-- ===== src/Sha256/Tests.antt =====
-- A test vector of FIPS 180-4, and the theorem at a concrete input.
use holofs.Prelude.{◌≡◌, refl, [], ◌∷◌, take, arith}
use holofs.Codec.Bytes.{to_be_bytes, from_be_bytes}
use holofs.Sha256.{new, copy_at, flush, absorb, update, clear_to, mark, finalize, sha256}
use holofs.Sha256.Stream.{update-append}
use holofs.Sha256.Compress.{rotate_right, block_words, schedule, round, rounds, process_block}

-- The hash of "abc" starts with the bytes ba 78 16 bf 8f 01 cf ea.
abc_hash :
    take 8 (sha256 (b'a' ∷ b'b' ∷ b'c' ∷ []))
    ≡ 0xba ∷ 0x78 ∷ 0x16 ∷ 0xbf ∷ 0x8f ∷ 0x01 ∷ 0xcf ∷ 0xea ∷ []
unfolding sha256 new copy_at flush absorb update clear_to mark finalize rotate_right block_words
    schedule round rounds process_block to_be_bytes from_be_bytes
abc_hash = refl

update-append_example : update (update new (1 ∷ 2 ∷ [])) (3 ∷ []) ≡ update new (1 ∷ 2 ∷ 3 ∷ [])
unfolding new
update-append_example = update-append new (1 ∷ 2 ∷ []) (3 ∷ []) (omega arith)
