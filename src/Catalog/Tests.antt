-- ===== src/Catalog/Tests.antt =====
-- Runs of the catalog's operations, and the theorems at a concrete catalog.
use holofs.Prelude.{
  ℕ, ◌+◌, ◌≡◌, ◌<◌, ◌^◌, ◌⊎◌, refl, List, [], ◌∷◌, some, some_cancel, subst, length, arith,
}
use holofs.Codec.Io.{ok}
use holofs.Codec.Bytes.{to_be_bytes}
use holofs.Codec.Utf8.{is_utf8}
use holofs.Manifest.{Manifest, opaque, directory_marker}
use holofs.Manifest.Encode as M
use holofs.Manifest.RoundTrip.{marker-InRange}
use holofs.Catalog.{Entry, compare_names, insert, get, names, encode, decode}
use holofs.Catalog.Entries.{Sorted}
use holofs.Catalog.RoundTrip.{catalog_round_trip}
use holofs.Catalog.Ancestry
use holofs.Catalog.Directories.{synthesize_missing_directories}
use holofs.Catalog.Synthesis.{IsWanted, get-synthesize_missing_directories}

abbrev a : List ℕ
a = b'a' ∷ []

abbrev b : List ℕ
b = b'a' ∷ b'/' ∷ b'b' ∷ []

abbrev marker : Manifest
marker = directory_marker 7

abbrev catalog : List Entry
catalog = (a, marker) ∷ (b, directory_marker 8) ∷ []

inserted :
    names (insert b (directory_marker 9) (insert a marker (insert b (directory_marker 8) [])))
    ≡ a ∷ b ∷ []
unfolding insert compare_names names
inserted = refl

catalog-Sorted : Sorted catalog
unfolding compare_names
catalog-Sorted = ((refl, tt), (tt, tt))

short :
    (id : ℕ) (bytes : List ℕ) → M.encode (directory_marker id) ≡ some bytes → length bytes < 2 ^ 32
unfolding M.encode M.asserts M.encode_body directory_marker to_be_bytes M.encode_u32s M.encode_text
    M.encode_counted
short id bytes e = subst (λ t. length t < 2 ^ 32) (some_cancel e) (omega arith)

catalog_round_trip_example :
    (bytes : List ℕ) × (encode catalog ≡ some bytes) × (decode bytes ≡ ok catalog)
unfolding is_utf8
catalog_round_trip_example =
    catalog_round_trip catalog catalog-Sorted
      (
        ((omega arith, refl), marker-InRange 7 (omega arith), short 7),
        (((omega arith, refl), marker-InRange 8 (omega arith), short 8), tt),
      )
      (omega arith)

-- A catalog with one file, below two directories of which one has an entry.
abbrev file : List ℕ
file = b'x' ∷ b'/' ∷ b'y' ∷ b'/' ∷ b'z' ∷ []

abbrev below : List ℕ
below = b'x' ∷ b'/' ∷ b'y' ∷ []

abbrev file_catalog : List Entry
file_catalog = (b'x' ∷ [], marker) ∷ (file, record marker { kind = opaque }) ∷ []

get-synthesize_missing_directories_example :
    let completed = (synthesize_missing_directories file_catalog).0 in
    ((m : Manifest) → get below file_catalog ≡ some m → get below completed ≡ some m)
    × (IsWanted file_catalog below → get below completed ≡ some (Ancestry.marker below))
    × ((m : Manifest)
        → get below completed ≡ some m
        → (get below file_catalog ≡ some m)
          ⊎ (IsWanted file_catalog below × (m ≡ Ancestry.marker below)))
    × (length completed ≡ length file_catalog + (synthesize_missing_directories file_catalog).1)
get-synthesize_missing_directories_example = get-synthesize_missing_directories file_catalog below
