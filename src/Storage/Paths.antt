-- ===== src/Storage/Paths.antt =====
-- The names of shard files of crates/holofs-storage/src/node_service.rs: two hashes have two files, and a temporary
-- file is not taken for a shard file.
use holofs.Prelude.{
  ℕ, ◌-◌, ◌<◌, ◌≡◌, ◌≢◌, refl, sym, ap, ap₂, ◌∙◌, subst, Bool, true, false, ◌&&◌, List, [], ◌∷◌,
  ◌++◌, append_assoc, All, length, length-append, take, drop, take-append, drop-append,
  take-append-drop, length-drop, ltb, lt→ltb, not, list_eq, list_eq_refl, arith,
}
use holofs.Shard.{Shard}
use holofs.Sha256.Digest.{finalize-bytes}
use holofs.Sha256.Hex.{hex, hex-injective, length-hex}
use holofs.Merkle.{Hash, shard_hash}
use holofs.Storage.Files.{
  FilePath, shard_extension, tmp_extension, shard_path, tmp_path, is_shard_file,
}

-- A hash of 32 bytes.
abbrev pub IsHash : Hash → Type 0
IsHash h = (length h ≡ 32) × All (λ b. b < 256) h

pub shard_hash-IsHash : (s : Shard) → IsHash (shard_hash s)
unfolding shard_hash
shard_hash-IsHash s = finalize-bytes _

pub shard_path-injective : (g h : Hash) → IsHash g → IsHash h → shard_path g ≡ shard_path h → g ≡ h
unfolding shard_path
shard_path-injective g h hg hh e =
    let lg = length-hex g in
    let lh = length-hex h in
    let eg : length (drop 2 (hex g)) ≡ 62 = omega (arith, length-drop 2 (hex g), hg.0) in
    let eh : length (drop 2 (hex h)) ≡ 62 = omega (arith, length-drop 2 (hex h), hh.0) in
    let tails = ap (λ (p : FilePath). take 62 p.1) e in
    let cut = λ (xs : List ℕ) (n : length xs ≡ 62).
      subst (λ k. take k (xs ++ shard_extension) ≡ xs) n (take-append xs shard_extension) in
    let rest = sym (cut (drop 2 (hex g)) eg) ∙ tails ∙ cut (drop 2 (hex h)) eh in
    let heads = ap (λ (p : FilePath). p.0) e in
    hex-injective g h hg.1 hh.1 (
      sym (take-append-drop 2 (hex g))
      ∙ ap₂ (λ a b. a ++ b) heads rest
      ∙ take-append-drop 2 (hex h))

nonempty : (xs ys : List ℕ) → 2 < length xs → list_eq (take 2 xs) [] ≡ false
unfolding list_eq
nonempty [] ys h = absurd (omega arith)
nonempty (x ∷ xs) ys h = refl

-- The last six bytes of a name.
last_six : (xs ys : List ℕ) → length ys ≡ 6 → drop (length (xs ++ ys) - 6) (xs ++ ys) ≡ ys
last_six xs ys h =
    let n : length (xs ++ ys) - 6 ≡ length xs = omega (arith, length-append xs ys) in
    subst (λ k. drop k (xs ++ ys) ≡ ys) (sym n) (drop-append xs ys)

pub shard_path-is_shard_file : (h : Hash) → IsHash h → is_shard_file (shard_path h) ≡ true
unfolding shard_path is_shard_file
shard_path-is_shard_file h hh =
    let len = length-hex h in
    let body = drop 2 (hex h) in
    let longer : ltb 6 (length (body ++ shard_extension)) ≡ true =
      lt→ltb 6 (length (body ++ shard_extension))
        (omega (arith, length-append body shard_extension, length-drop 2 (hex h), hh.0)) in
    rw (nonempty (hex h) [] (omega (arith, hh.0)))
      (rw longer (rw (last_six body shard_extension refl) (list_eq_refl shard_extension)))

and_false : (a b : Bool) → b ≡ false → (a && b) ≡ false
and_false true b e = e
and_false false b e = refl

pub tmp_path-is_shard_file : (h : Hash) → is_shard_file (tmp_path h) ≡ false
unfolding tmp_path shard_path is_shard_file list_eq
tmp_path-is_shard_file h =
    let body = drop 2 (hex h) in
    let ending : List ℕ = b'r' ∷ b'd' ∷ tmp_extension in
    let front : List ℕ = b'.' ∷ b's' ∷ b'h' ∷ b'a' ∷ [] in
    let split : (body ++ shard_extension) ++ tmp_extension ≡ (body ++ front) ++ ending =
      append_assoc body shard_extension tmp_extension ∙ sym (append_assoc body front ending) in
    let name = (body ++ front) ++ ending in
    rw split (
      and_false (not (list_eq (take 2 (hex h)) []) && ltb 6 (length name))
        (list_eq (drop (length name - 6) name) shard_extension)
        (ap (λ t. list_eq t shard_extension) (last_six (body ++ front) ending refl)))

pub tmp-apart : (g h : Hash) → IsHash g → shard_path g ≢ tmp_path h
tmp-apart g h hg e =
    let yes = shard_path-is_shard_file g hg in
    let no = tmp_path-is_shard_file h in let same = ap is_shard_file e in cc
