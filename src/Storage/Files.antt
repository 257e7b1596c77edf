-- ===== src/Storage/Files.antt =====
-- The shard files of crates/holofs-storage/src/node_service.rs. A path below the storage directory is the
-- name of a folder, which is empty for a file of the directory itself, and the name of a file. A disk is the
-- map from paths to contents; folders stand and fall with their files.
use holofs.Prelude.{
  ℕ, ◌≡◌, ◌↔◌, ◌-◌, ◌%◌, ◌^◌, min, Bool, true, false, not, ◌&&◌, List, [], ◌∷◌, ◌++◌, ◌<>◌, map,
  Option, none, some, length, take, drop, ltb, list_eq, list_eq_iff, if◌then◌else◌, get_or, arith,
}
use holofs.Shard.{Shard}
use holofs.Codec.Io.{Result, invalid_data}
use holofs.Codec.Bytes.{to_be_bytes, from_be_bytes}
use holofs.Codec.Cursor.{Reader, pure, fail, ◌>>=◌, run, take as read}
use holofs.Sha256.Hex.{hex}
use holofs.Merkle.{Hash, shard_hash}
use holofs.Storage.HashMap.{Keyed, find, insert, retain}

-- (object_id, channel, layer)
abbrev pub Key : Type 0
Key = ℕ × ℕ × ℕ

abbrev pub FilePath : Type 0
FilePath = List ℕ × List ℕ

unfoldable pub path_beq : FilePath → FilePath → Bool
path_beq p q = list_eq p.0 q.0 && list_eq p.1 q.1

pub path_beq_iff : (p q : FilePath) → (path_beq p q ≡ true) ↔ (p ≡ q)
unfolding path_beq
path_beq_iff p q = ground (arith, list_eq_iff p.0 q.0, list_eq_iff p.1 q.1)

instance abbrev pub path_keyed : Keyed FilePath
path_keyed = record { beq = path_beq; beq_iff = path_beq_iff }

abbrev pub Disk : Type 0
Disk = List (FilePath × List ℕ)

-- ".shard"
abbrev pub shard_extension : List ℕ
shard_extension = b'.' ∷ b's' ∷ b'h' ∷ b'a' ∷ b'r' ∷ b'd' ∷ []

-- ".tmp"
abbrev pub tmp_extension : List ℕ
tmp_extension = b'.' ∷ b't' ∷ b'm' ∷ b'p' ∷ []

unfoldable pub shard_path : Hash → FilePath
shard_path h = let s = hex h in (take 2 s, drop 2 s ++ shard_extension)

-- `path.with_extension("shard.tmp")`
unfoldable pub tmp_path : Hash → FilePath
tmp_path h = let (folder, file) = shard_path h in (folder, file ++ tmp_extension)

-- "HOLOFSS1"
abbrev pub shard_magic : List ℕ
shard_magic = b'H' ∷ b'O' ∷ b'L' ∷ b'O' ∷ b'F' ∷ b'S' ∷ b'S' ∷ b'1' ∷ []

-- The bytes that are written, one `write_all` after the other.
unfoldable pub file_bytes : Key → Shard → List ℕ
file_bytes k shard =
    shard_magic
    <> to_be_bytes 8 k.0
    <> k.1 ∷ k.2 ∷ []
    <> to_be_bytes 4 (length shard.coeffs % 2 ^ 32)
    <> to_be_bytes 4 (length shard.payload % 2 ^ 32)
    <> shard.coeffs
    <> shard.payload

-- What the code asks of the file system. A write adds one byte: a longer one may end after any of them.
pub data FileOp : Type 0 where
  create : FilePath → FileOp
  write : FilePath → ℕ → FileOp
  rename : FilePath → FilePath → FileOp

unfoldable pub remove_file : FilePath → Disk → Disk
remove_file p d = retain (λ q. not (path_beq p q)) d

unfoldable pub apply_op : FileOp → Disk → Disk
apply_op (create p) d = insert p [] d
apply_op (write p b) d = elim (find p d) [ none ↦ d | some c ↦ insert p (c ++ b ∷ []) d ]
apply_op (rename p q) d = elim (find p d) [ none ↦ d | some c ↦ insert q c (remove_file p d) ]

unfoldable pub apply_ops : List FileOp → Disk → Disk
apply_ops [] d = d
apply_ops (op ∷ ops) d = apply_ops ops (apply_op op d)

unfoldable pub shard_file_ops : Key → Hash → Shard → List FileOp
shard_file_ops k h shard =
    create (tmp_path h)
    ∷ (map (write (tmp_path h)) (file_bytes k shard) ++ rename (tmp_path h) (shard_path h) ∷ [])

-- The disk, and whether all went well. With the fault `some n` the file system does `n` of the operations,
-- and refuses the next.
unfoldable pub write_shard_file : Option ℕ → Key → Hash → Shard → Disk → Disk × Bool
write_shard_file none k h shard d = (apply_ops (shard_file_ops k h shard) d, true)
write_shard_file (some n) k h shard d =
    let ops = shard_file_ops k h shard in (apply_ops (take (min n (length ops - 1)) ops) d, false)

-- What follows the magic in the header, and the two byte strings.
unfoldable pub read_body : List ℕ → Reader (Key × Hash × Shard)
read_body header = do
  let coeffs_len = from_be_bytes (take 4 (drop 18 header))
  let payload_len = from_be_bytes (take 4 (drop 22 header))
  coeffs ← read coeffs_len
  payload ← read payload_len
  let shard : Shard = record { coeffs = coeffs; payload = payload }
  pure (
    (from_be_bytes (take 8 (drop 8 header)), get_or header 16 0, get_or header 17 0),
    shard_hash shard,
    shard,
  )

unfoldable pub read_shard_file : List ℕ → Result (Key × Hash × Shard)
read_shard_file contents =
    run
      (do
        header ← read 26
        if list_eq (take 8 header) shard_magic then read_body header else fail invalid_data)
      contents

-- `p.extension() == Some("shard")`, for a file that stands in a folder.
unfoldable pub is_shard_file : FilePath → Bool
is_shard_file (folder, file) =
    not (list_eq folder [])
    && ltb 6 (length file)
    && list_eq (drop (length file - 6) file) shard_extension

unfoldable pub walk_shard_files : Disk → List FilePath
walk_shard_files [] = []
walk_shard_files ((p, contents) ∷ d) =
    let later = walk_shard_files d in if is_shard_file p then p ∷ later else later
