-- ===== src/Catalog/RoundTrip.antt =====
-- The catalog file of crates/holofs-model/src/fs.rs: decoding undoes encoding.
use native.Mathlib.Nat.{mod-eq_of_lt}
use holofs.Prelude.{
  ℕ, ◌<◌, ◌%◌, ◌^◌, ◌≤◌, ◌++◌, ◌≡◌, refl, List, [], ◌∷◌, length, length-append, arith, All, some,
  ◌∙◌, list_eq, ge→ltb,
}
use holofs.Codec.Io.{ok}
use holofs.Codec.Bytes.{to_be_bytes, length-to_be_bytes}
use holofs.Codec.Utf8.{from_utf8-valid}
use holofs.Codec.Cursor.{u16, repeat, run}
use holofs.Codec.Reads.{
  Reads, Reads-bind, Reads-last, Reads-pure, Reads-lift, Reads-take, Reads-u16, Reads-u32_cast,
  Reads-run,
}
use holofs.Manifest.Encode as M
use holofs.Manifest.RoundTrip.{InRange, TextInRange, manifest_round_trip}
use holofs.Catalog.{
  Entry, magic, encode_entry, encode_entries, encode, decode_entry, decode_entries, decode,
}
use holofs.Catalog.Entries.{Sorted, insert_all-Sorted}

-- The name is UTF-8 of at most 2 ^ 16 - 1 bytes, the manifest is in range and its bytes fit a `u32` length.
abbrev pub EntryInRange : Entry → Type 0
EntryInRange (name, m) =
    TextInRange name
    × InRange m
    × ((bytes : List ℕ) → M.encode m ≡ some bytes → length bytes < 2 ^ 32)

Reads-u16_cast : (x : ℕ) → x < 2 ^ 16 → Reads u16 x (to_be_bytes 2 (x % 2 ^ 16))
Reads-u16_cast x h = rw (mod-eq_of_lt h) (Reads-u16 x h)

Reads-entry :
    (e : Entry)
    → EntryInRange e
    → (bs : List ℕ) × (encode_entry e ≡ some bs) × Reads decode_entry e bs
unfolding encode_entry decode_entry
Reads-entry (name, m) (text, fit, short) =
    let (mb, enc, dec) = manifest_round_trip m fit in
    (
      _,
      rw (enc, encode_entry) refl,
      Reads-bind _ (Reads-u16_cast (length name) text.0) (
          Reads-bind _ (Reads-take (length name) name refl) (
            Reads-bind _ (Reads-lift _ name (from_utf8-valid name text.1)) (
              Reads-bind _ (Reads-u32_cast (length mb) (short mb enc)) (
                Reads-last _ (Reads-take (length mb) mb refl)
                  (Reads-last _ (Reads-lift _ m dec) (Reads-pure (name, m))))))),
    )

Reads-entries :
    (es : List Entry)
    → All EntryInRange es
    → (bs : List ℕ) × (encode_entries es ≡ some bs) × Reads (repeat (length es) decode_entry) es bs
unfolding encode_entries repeat
Reads-entries [] h = ([], refl, Reads-pure [])
Reads-entries (e ∷ es) h =
    let (bs, enc, r) = Reads-entry e h.0 in
    let (cs, enc', r') = Reads-entries es h.1 in
    (
      bs ++ cs,
      rw (enc, enc', encode_entries) refl,
      Reads-bind _ r (Reads-last _ r' (Reads-pure (e ∷ es))),
    )

Reads-body :
    (es : List Entry) (bs : List ℕ)
    → Sorted es
    → length es < 2 ^ 32
    → Reads (repeat (length es) decode_entry) es bs
    → Reads decode_entries es (to_be_bytes 4 (length es % 2 ^ 32) ++ bs)
unfolding decode_entries
Reads-body es bs s n r =
    Reads-bind _ (Reads-u32_cast (length es) n)
      (Reads-last _ r (rw (insert_all-Sorted es s) (Reads-pure es)))

decode-magic : (body : List ℕ) → 4 ≤ length body → decode (magic ++ body) ≡ run decode_entries body
unfolding decode list_eq
decode-magic body h = rw (ge→ltb (length (magic ++ body)) 12 (omega arith), decode) refl

-- A catalog whose entries are in the order of their names and in range, fewer than 2 ^ 32 of them, is
-- encoded without a panic, and decoding the bytes gives the catalog back.
pub catalog_round_trip :
    (entries : List Entry)
    → Sorted entries
    → All EntryInRange entries
    → length entries < 2 ^ 32
    → (bytes : List ℕ) × (encode entries ≡ some bytes) × (decode bytes ≡ ok entries)
unfolding encode
catalog_round_trip es s h n =
    let (bs, enc, r) = Reads-entries es h in
    let body = to_be_bytes 4 (length es % 2 ^ 32) ++ bs in
    (
      magic ++ body,
      rw (enc, encode) refl,
      decode-magic body (
            omega (
              arith,
              length-append (to_be_bytes 4 (length es % 2 ^ 32)) bs,
              length-to_be_bytes 4 (length es % 2 ^ 32),
            ))
          ∙ Reads-run (Reads-body es bs s n r),
    )
