-- ===== src/Storage/Tests.antt =====
-- Runs of crates/holofs-storage/src/node_service.rs, and instances of its theorems.
use holofs.Prelude.{
  ℕ, ◌+◌, ◌≡◌, ◌⊎◌, refl, ap, List, [], ◌∷◌, none, some, take, list_eq, list_eq_refl, arith,
}
use holofs.Shard.{Shard}
use holofs.Codec.Io.{ok}
use holofs.Merkle.{Hash, shard_hash}
use holofs.Wire.Request as Req
use holofs.Wire.Response as Resp
use holofs.Storage.Files.{Key, Disk, apply_ops, shard_file_ops, file_bytes, read_shard_file}
use holofs.Storage.HashMap.{find, insert}
use holofs.Storage.{
  new, is_some, put, purge, total, get_by_hash, bucket, add, key_beq, key_keyed, hash_keyed, Store,
  open_dir,
}
use holofs.Codec.Bytes
use holofs.Sha256
use holofs.Sha256.Compress
use holofs.Sha256.Hex
use holofs.Storage
use holofs.Storage.Files
use holofs.Storage.HashMap
use holofs.Storage.Handler.{Schedule, handle_request, handle_all}
use holofs.Storage.Filed.{new-IsFiled}
use holofs.Storage.Total.{counted, total_conserved}
use holofs.Storage.Crash.{Untouched, Written, shard_file_ops-atomic}
use holofs.Storage.RoundTrip.{read_shard_file-file_bytes}
use holofs.Storage.Restart.{open_dir-handle_all}
use holofs.Storage.Refines.{SpecAll, contents, handle_all-SpecAll, handle_all-audit}

abbrev shard : Shard
shard = record { coeffs = 1 ∷ 0 ∷ []; payload = b'h' ∷ b'i' ∷ [] }

abbrev key : Key
key = (7, 0, 1)

abbrev sign_nothing : List ℕ → List ℕ
sign_nothing nonce = []

-- A shard is put twice, the second time while the file system fails, and the object is purged.
abbrev schedule : Schedule
schedule =
    (none, Req.ping)
    ∷ (none, Req.put 7 0 1 shard)
    ∷ (some 3, Req.put 7 0 1 shard)
    ∷ (none, Req.get 7 0 1)
    ∷ (none, Req.purge 7)
    ∷ []

handle_all-SpecAll_example :
    SpecAll sign_nothing
      (is_some new.dir)
      (contents new)
      schedule
      (handle_all sign_nothing schedule new).1
      (contents (handle_all sign_nothing schedule new).0)
handle_all-SpecAll_example = handle_all-SpecAll sign_nothing schedule new new-IsFiled

abbrev one_put : Schedule
one_put = (none, Req.put 7 0 1 shard) ∷ []

stored : get_by_hash key (shard_hash shard) (put none key shard new).0 ≡ some shard
unfolding get_by_hash put new bucket find add insert key_beq
stored = rw (list_eq_refl (shard_hash shard)) refl

audited :
    (handle_request sign_nothing none
      (Req.audit 7 0 1 (shard_hash shard))
      (handle_all sign_nothing one_put new).0).1
    ≡ Resp.audit_resp (some shard)
unfolding handle_request handle_all
audited = ap Resp.audit_resp stored

handle_all-audit_example : shard_hash shard ≡ shard_hash shard
handle_all-audit_example =
    handle_all-audit sign_nothing one_put new none 7 0 1 (shard_hash shard) shard new-IsFiled
      audited

total_conserved_example :
    (total (put none key shard new).0 ≡ total new + counted (put none key shard new).1)
    × (total (purge 7 new).0 + (purge 7 new).1 ≡ total new)
total_conserved_example = total_conserved none key shard 7 new

shard_file_ops-atomic_example :
    Untouched key (1 ∷ []) shard [] (apply_ops (take 3 (shard_file_ops key (1 ∷ []) shard)) [])
    ⊎ Written key (1 ∷ []) shard [] (apply_ops (take 3 (shard_file_ops key (1 ∷ []) shard)) [])
shard_file_ops-atomic_example = shard_file_ops-atomic key (1 ∷ []) shard [] 3

read_shard_file-file_bytes_example :
    read_shard_file (file_bytes key shard) ≡ ok (key, shard_hash shard, shard)
read_shard_file-file_bytes_example =
    read_shard_file-file_bytes key shard (record {
      object_id_fits = omega arith;
      coeffs_fit = omega arith;
      payload_fits = omega arith;
    })

-- Every hash belongs to one key; the second put meets a fault.
abbrev one_home : Hash → Key
one_home h = key

open_dir-handle_all_example :
    let st = (handle_all sign_nothing schedule (open_dir [])).0 in
    (d : Disk) × (st.dir ≡ some d)
    × ((k : Key) (h : Hash) → get_by_hash k h (open_dir d) ≡ get_by_hash k h st)
open_dir-handle_all_example = open_dir-handle_all sign_nothing one_home schedule (
  tt,
  (
    (
      record { object_id_fits = omega arith; coeffs_fit = omega arith; payload_fits = omega arith },
      refl,
    ),
    (
      (
        record {
          object_id_fits = omega arith;
          coeffs_fit = omega arith;
          payload_fits = omega arith;
        },
        refl,
      ),
      (tt, (tt, tt)),
    ),
  ),
)

abbrev disk_of : Store → Disk
disk_of st = elim st.dir [ none ↦ [] | some d ↦ d ]

-- The same shard under two keys, of which one is purged: the node still has the other, but not its file.
abbrev two_keys : Schedule
two_keys = (none, Req.put 7 0 1 shard) ∷ (none, Req.put 8 0 1 shard) ∷ (none, Req.purge 7) ∷ []

abbrev left_over : Store
left_over = (handle_all sign_nothing two_keys (open_dir [])).0

lost_on_restart :
    (get_by_hash (8, 0, 1) (shard_hash shard) left_over ≡ some shard)
    × (get_by_hash (8, 0, 1) (shard_hash shard) (open_dir (disk_of left_over)) ≡ none)
unfolding get_by_hash find bucket handle_all handle_request purge HashMap.retain put open_dir
    Storage.index_files Files.walk_shard_files Storage.finish_put Files.write_shard_file add insert
    key_beq list_eq shard_hash Bytes.from_be_bytes Bytes.to_be_bytes Compress.block_words
    Compress.process_block Compress.rotate_right Compress.round Compress.rounds Compress.schedule
    Hex.hex Hex.hex_digit Sha256.absorb Sha256.clear_to Sha256.copy_at Sha256.finalize Sha256.flush
    Sha256.mark Sha256.new Sha256.update Files.apply_op apply_ops file_bytes Files.is_shard_file
    Files.path_beq Files.remove_file shard_file_ops Files.shard_path Files.tmp_path
    Storage.object_hashes Storage.remove_files
lost_on_restart = (refl, refl)
