-- ===== src/Catalog/Directories.antt =====
-- `synthesize_missing_directories` of crates/holofs-model/src/fs.rs: markers for the directories of old catalogs.
use holofs.Prelude.{
  ℕ, Bool, true, false, List, [], ◌∷◌, ◌++◌, ◌<>◌, none, some, length, take, list_eq, if◌then◌else◌,
}
use Prim.Native.Nat.{Ordering}
use holofs.Codec.Bytes.{from_be_bytes}
use holofs.Sha256.{sha256}
use holofs.CatalogPath.{ancestors}
use holofs.Manifest.{ObjectKind, directory, directory_marker}
use holofs.Catalog.{Entry, compare_names, get, insert}

-- "holofs-dir-v1\0"
abbrev pub dir_tag : List ℕ
dir_tag =
    b'h' ∷ b'o' ∷ b'l' ∷ b'o' ∷ b'f' ∷ b's' ∷ b'-' ∷ b'd' ∷ b'i' ∷ b'r' ∷ b'-' ∷ b'v' ∷ b'1' ∷ 0
    ∷ []

unfoldable pub directory_id : List ℕ → ℕ
directory_id path = from_be_bytes (take 8 (sha256 (dir_tag <> path)))

abbrev pub is_directory : ObjectKind → Bool
is_directory directory = true
is_directory other = false

abbrev pub contains_key : List Entry → List ℕ → Bool
contains_key entries name = elim (get name entries) [ none ↦ false | some m ↦ true ]

-- The loop over the ancestors of a name.
unfoldable pub missing : List Entry → List (List ℕ) → List (List ℕ)
missing entries [] = []
missing entries (anc ∷ ancs) =
    let later = missing entries ancs in if contains_key entries anc then later else anc ∷ later

-- The loop over the entries of the catalog `entries`.
unfoldable pub wanted_of : List Entry → List Entry → List (List ℕ)
wanted_of entries [] = []
wanted_of entries ((key, m) ∷ rest) =
    let later = wanted_of entries rest in
    if is_directory m.kind then later else missing entries (ancestors key) ++ later

-- `sort` on strings.
unfoldable pub insert_name : List ℕ → List (List ℕ) → List (List ℕ)
insert_name x [] = x ∷ []
insert_name x (y ∷ ys) =
    let later = insert_name x ys in
    elim (compare_names x y) [
      | Ordering.lt ↦ x ∷ y ∷ ys
      | Ordering.eq ↦ x ∷ y ∷ ys
      | Ordering.gt ↦ y ∷ later
    ]

unfoldable pub sort_names : List (List ℕ) → List (List ℕ)
sort_names [] = []
sort_names (x ∷ xs) = insert_name x (sort_names xs)

-- `dedup`: of equal neighbours the first is kept.
unfoldable pub dedup_names : List (List ℕ) → List (List ℕ)
dedup_names [] = []
dedup_names (x ∷ []) = x ∷ []
dedup_names (x ∷ y ∷ ys) =
    let later = dedup_names (y ∷ ys) in if list_eq x y then later else x ∷ later

unfoldable pub insert_markers : List (List ℕ) → List Entry → List Entry
insert_markers [] entries = entries
insert_markers (path ∷ paths) entries =
    insert_markers paths (insert path (directory_marker (directory_id path)) entries)

-- The catalog, and the number of new entries.
unfoldable pub synthesize_missing_directories : List Entry → List Entry × ℕ
synthesize_missing_directories entries =
    let wanted = dedup_names (sort_names (wanted_of entries entries)) in
    (insert_markers wanted entries, length wanted)
