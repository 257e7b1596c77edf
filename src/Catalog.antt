-- ===== src/Catalog.antt =====
-- `Directory` of crates/holofs-model/src/fs.rs: the catalog of names and manifests. The `BTreeMap` is the
-- list of its entries in the order of their names, which is that of their bytes.
pub mod Entries
pub mod Order
pub mod RoundTrip
pub mod Directories
pub mod Ancestry
pub mod NewNames
pub mod Synthesis
mod Tests
use Prim.Native.Nat.{compare, Ordering}
use holofs.Prelude.{
  ℕ, ◌+◌, ◌%◌, ◌^◌, Bool, true, false, ◌||◌, not, List, [], ◌∷◌, ◌++◌, ◌<>◌, Option, none, some,
  length, take, drop, ltb, list_eq, if◌then◌else◌, map,
}
use holofs.Codec.Io.{Result, ok, err, invalid_data, map_ok}
use holofs.Codec.Bytes.{to_be_bytes}
use holofs.Codec.Utf8.{from_utf8}
use holofs.Codec.Cursor.{Reader, pure, lift, ◌>>=◌, u16, u32, repeat, run, take as read}
use holofs.Manifest.{Manifest}
use holofs.Manifest.Encode as M
use holofs.Manifest.Decode as D

abbrev pub Entry : Type 0
Entry = List ℕ × Manifest

-- The order of strings.
unfoldable pub compare_names : List ℕ → List ℕ → Ordering
compare_names [] [] = Ordering.eq
compare_names [] (b ∷ ys) = Ordering.lt
compare_names (a ∷ xs) [] = Ordering.gt
compare_names (a ∷ xs) (b ∷ ys) =
    let rest = compare_names xs ys in
    elim (compare a b) [
      | Ordering.lt ↦ Ordering.lt
      | Ordering.eq ↦ rest
      | Ordering.gt ↦ Ordering.gt
    ]

unfoldable pub insert : List ℕ → Manifest → List Entry → List Entry
insert name manifest [] = (name, manifest) ∷ []
insert name manifest ((key, m) ∷ rest) =
    let later = insert name manifest rest in
    elim (compare_names name key) [
      | Ordering.lt ↦ (name, manifest) ∷ (key, m) ∷ rest
      | Ordering.eq ↦ (key, manifest) ∷ rest
      | Ordering.gt ↦ (key, m) ∷ later
    ]

unfoldable pub get : List ℕ → List Entry → Option Manifest
get name [] = none
get name ((key, m) ∷ rest) = let later = get name rest in if list_eq name key then some m else later

-- The entry that was removed, and the entries left.
unfoldable pub remove : List ℕ → List Entry → Option Manifest × List Entry
remove name [] = (none, [])
remove name ((key, m) ∷ rest) =
    let later = remove name rest in
    if list_eq name key then (some m, rest) else (later.0, (key, m) ∷ later.1)

unfoldable pub names : List Entry → List (List ℕ)
names entries = map (λ e. e.0) entries

-- "HOLOFSD1"
abbrev pub magic : List ℕ
magic = b'H' ∷ b'O' ∷ b'L' ∷ b'O' ∷ b'F' ∷ b'S' ∷ b'D' ∷ b'1' ∷ []

unfoldable pub encode_entry : Entry → Option (List ℕ)
encode_entry (name, manifest) = elim (M.encode manifest) [
  | none ↦ none
  | some mb ↦
      some
        (to_be_bytes 2 (length name % 2 ^ 16) <> name <> to_be_bytes 4 (length mb % 2 ^ 32) <> mb)
]

-- `none` is a panic of an assertion of `Manifest::encode`.
unfoldable pub encode_entries : List Entry → Option (List ℕ)
encode_entries [] = some []
encode_entries (e ∷ es) =
    let rest = encode_entries es in
    elim (encode_entry e) [
      | none ↦ none
      | some bs ↦ elim rest [ none ↦ none | some cs ↦ some (bs ++ cs) ]
    ]

unfoldable pub encode : List Entry → Option (List ℕ)
encode entries = elim (encode_entries entries) [
  | none ↦ none
  | some b ↦ some (magic <> to_be_bytes 4 (length entries % 2 ^ 32) <> b)
]

unfoldable pub decode_entry : Reader Entry
decode_entry = do
  nlen ← u16
  bytes ← read nlen
  name ← lift (from_utf8 bytes)
  mlen ← u32
  body ← read mlen
  manifest ← lift (D.decode body)
  pure (name, manifest)

-- The entries read are inserted one by one.
unfoldable pub insert_all : List Entry → List Entry → List Entry
insert_all entries [] = entries
insert_all entries ((name, m) ∷ more) = insert_all (insert name m entries) more

unfoldable pub decode_entries : Reader (List Entry)
decode_entries = do n ← u32; read_entries ← repeat n decode_entry; pure (insert_all [] read_entries)

unfoldable pub decode : List ℕ → Result (List Entry)
decode buf =
    if ltb (length buf) 12 || not (list_eq (take 8 buf) magic)
    then err invalid_data
    else run decode_entries (drop 8 buf)
