-- ===== src/Storage/RoundTrip.antt =====
-- A shard file of crates/holofs-storage/src/node_service.rs is read back as it was written.
use holofs.Prelude.{
  ℕ, ◌<◌, ◌%◌, ◌^◌, ◌≡◌, true, refl, sym, ap, ◌∙◌, List, [], ◌∷◌, ◌++◌, length, length-append, take,
  drop, take-append, drop-append, append_assoc, append-nil, list_eq, list_eq_refl, get_or, arith,
}
use holofs.Shard.{Shard}
use holofs.Codec.Io.{ok}
use holofs.Codec.Bytes.{to_be_bytes, from_be_bytes, length-to_be_bytes, from_be_bytes-to_be_bytes}
use holofs.Codec.Reads.{Reads, Reads-bind, Reads-take, Reads-pure, Reads-last, Reads-run}
use holofs.Merkle.{shard_hash}
use holofs.Storage.Files.{Key, shard_magic, file_bytes, read_body, read_shard_file}

-- What the fields of the header can hold.
pub record Fits (k : Key) (s : Shard) : Type 0 where
  pub object_id_fits : k.0 < 2 ^ 64
  pub coeffs_fit : length s.coeffs < 2 ^ 32
  pub payload_fits : length s.payload < 2 ^ 32

header_of : Key → Shard → List ℕ
header_of k s =
    shard_magic
    ++ (to_be_bytes 8 k.0
        ++ (k.1 ∷ k.2 ∷ []
            ++ (to_be_bytes 4 (length s.coeffs % 2 ^ 32)
                ++ to_be_bytes 4 (length s.payload % 2 ^ 32))))

length-header_of : (k : Key) (s : Shard) → length (header_of k s) ≡ 26
unfolding header_of
length-header_of k s =
    let b = to_be_bytes 8 k.0 in
    let c = to_be_bytes 4 (length s.coeffs % 2 ^ 32) in
    let p = to_be_bytes 4 (length s.payload % 2 ^ 32) in
    omega (
      arith,
      length-append b (k.1 ∷ k.2 ∷ [] ++ (c ++ p)),
      length-append c p,
      length-to_be_bytes 8 k.0,
      length-to_be_bytes 4 (length s.coeffs % 2 ^ 32),
      length-to_be_bytes 4 (length s.payload % 2 ^ 32),
    )

-- A field that stands after `n` bytes and has `w`.
field :
    (n w : ℕ) (pre mid post : List ℕ)
    → length pre ≡ n
    → length mid ≡ w
    → take w (drop n (pre ++ (mid ++ post))) ≡ mid
field n w pre mid post hn hw =
    rw (← hn)
      (rw (← hw) (ap (take (length mid)) (drop-append pre (mid ++ post)) ∙ take-append mid post))

entry :
    (n : ℕ) (pre : List ℕ) (x : ℕ) (post : List ℕ)
    → length pre ≡ n
    → get_or (pre ++ x ∷ post) n 0 ≡ x
entry n [] x post e = rw (← e) refl
entry n (y ∷ pre) x post e = rw (← e) (entry (length pre) pre x post refl)

module _ (k : Key) (s : Shard) (fits : Fits k s) where
  abbrev header : List ℕ
  header = header_of k s

  abbrev id_bytes : List ℕ
  id_bytes = to_be_bytes 8 k.0

  abbrev coeffs_bytes : List ℕ
  coeffs_bytes = to_be_bytes 4 (length s.coeffs % 2 ^ 32)

  abbrev payload_bytes : List ℕ
  payload_bytes = to_be_bytes 4 (length s.payload % 2 ^ 32)

  length-front : length (shard_magic ++ id_bytes) ≡ 16
  length-front = omega (arith, length-to_be_bytes 8 k.0)

  read_id : from_be_bytes (take 8 (drop 8 header)) ≡ k.0
  unfolding header_of
  read_id =
      ap from_be_bytes (
        field 8 8 shard_magic id_bytes (k.1 ∷ k.2 ∷ [] ++ (coeffs_bytes ++ payload_bytes)) refl
          (length-to_be_bytes 8 k.0))
      ∙ from_be_bytes-to_be_bytes 8 k.0 (omega (arith, fits.object_id_fits))

  read_channel : get_or header 16 0 ≡ k.1
  unfolding header_of
  read_channel =
      entry 16 (shard_magic ++ id_bytes) k.1 (k.2 ∷ (coeffs_bytes ++ payload_bytes)) length-front

  read_layer : get_or header 17 0 ≡ k.2
  unfolding header_of
  read_layer =
      let pre = shard_magic ++ id_bytes in
      ap (λ l. get_or l 17 0)
        (sym (append_assoc pre (k.1 ∷ []) (k.2 ∷ (coeffs_bytes ++ payload_bytes))))
      ∙ entry 17 (pre ++ k.1 ∷ []) k.2 (coeffs_bytes ++ payload_bytes)
          (omega (arith, length-append pre (k.1 ∷ []), length-front))

  abbrev before_lengths : List ℕ
  before_lengths = (shard_magic ++ id_bytes) ++ k.1 ∷ k.2 ∷ []

  length-before_lengths : length before_lengths ≡ 18
  length-before_lengths =
      omega (arith, length-append (shard_magic ++ id_bytes) (k.1 ∷ k.2 ∷ []), length-front)

  read_coeffs_len : from_be_bytes (take 4 (drop 18 header)) ≡ length s.coeffs
  unfolding header_of
  read_coeffs_len =
      let h = fits.coeffs_fit in
      ap (λ l. from_be_bytes (take 4 (drop 18 l)))
        (sym
          (append_assoc (shard_magic ++ id_bytes) (k.1 ∷ k.2 ∷ []) (coeffs_bytes ++ payload_bytes)))
      ∙ ap from_be_bytes (
          field 18 4 before_lengths coeffs_bytes payload_bytes length-before_lengths
            (length-to_be_bytes 4 (length s.coeffs % 2 ^ 32)))
      ∙ from_be_bytes-to_be_bytes 4 (length s.coeffs % 2 ^ 32) (omega arith)
      ∙ omega arith

  read_payload_len : from_be_bytes (take 4 (drop 22 header)) ≡ length s.payload
  unfolding header_of
  read_payload_len =
      let h = fits.payload_fits in
      let len = length-to_be_bytes 4 (length s.coeffs % 2 ^ 32) in
      ap (λ l. from_be_bytes (take 4 (drop 22 l)))
        (sym (
            append_assoc (shard_magic ++ id_bytes) (k.1 ∷ k.2 ∷ []) (coeffs_bytes ++ payload_bytes))
          ∙ sym (append_assoc before_lengths coeffs_bytes payload_bytes)
          ∙ ap (λ t. (before_lengths ++ coeffs_bytes) ++ t) (sym (append-nil payload_bytes)))
      ∙ ap from_be_bytes (
          field 22 4 (before_lengths ++ coeffs_bytes) payload_bytes []
            (omega (arith, length-append before_lengths coeffs_bytes, length-before_lengths, len))
            (length-to_be_bytes 4 (length s.payload % 2 ^ 32)))
      ∙ from_be_bytes-to_be_bytes 4 (length s.payload % 2 ^ 32) (omega arith)
      ∙ omega arith

  is_magic : list_eq (take 8 header) shard_magic ≡ true
  unfolding header_of
  is_magic = list_eq_refl shard_magic

  Reads-body : Reads (read_body header) (k, shard_hash s, s) (s.coeffs ++ s.payload)
  unfolding read_body
  Reads-body =
      rw (read_id, read_channel, read_layer)
        (Reads-bind _ (Reads-take _ s.coeffs (sym read_coeffs_len)) (
          Reads-last _ (Reads-take _ s.payload (sym read_payload_len))
            (Reads-pure (k, shard_hash s, s))))

  regroup : file_bytes k s ≡ header ++ (s.coeffs ++ s.payload)
  unfolding file_bytes header_of
  regroup = simp append_assoc

  -- A shard file gives back the key and the shard that were written to it, with the hash of the shard, if the
  -- key and the lengths fit the fields of the header.
  pub read_shard_file-file_bytes : read_shard_file (file_bytes k s) ≡ ok (k, shard_hash s, s)
  unfolding read_shard_file
  read_shard_file-file_bytes = rw regroup (
      Reads-run
        (Reads-bind _ (Reads-take 26 header (length-header_of k s)) (rw is_magic Reads-body)))
