-- ===== src/Rlnc/Tests.antt =====
-- Runs of the coder of crates/holofs-core/src/rlnc.rs, and instances of its theorems.
use holofs.Prelude.{
  In, inl, inr, ◌⊎◌, zero, suc, ◌<◌, length, take, ◌*◌, ℕ, ◌≡◌, refl, List, [], ◌∷◌, ◌++◌, Option,
  none, some, drop, get_or, arith, All,
}
use holofs.Shard.{Shard}
use holofs.Gf
use holofs.Rng
use holofs.Rlnc.Encode.{
  Encoded, encode_layer_with_k, resize, systematic, unit_vector, chunk, random_shards, random_bytes,
  guard_coeffs, count_nonzero, combine, add_scaled,
}
use holofs.Rlnc.Decode.{
  Decoded, decode_layer_with_k, sort_with_k, free_place, identity_index, scan, decode_parts,
  count_known, unknown_from, build_rows, build_row, read_all, reduce_payload, reduce_byte, assemble,
  position,
}
use holofs.Rlnc.Gauss.{
  Rows, eliminate, find_pivot, swap_rows, scale_row, subtract_row, clear_column, use_pivot,
}
use holofs.Rlnc.Linear.{dot}
use holofs.Rlnc.Consistent.{Consistent}
use holofs.Rlnc.Encoder.{column, Fits}
use holofs.Rlnc.Known.{IsTrue}
use holofs.Rlnc.Assembled.{chunks, Sound, decode_layer_with_k-Sound}
use holofs.Rlnc.RoundTrip.{decode-encode_layer_with_k}
use holofs.Rlnc.Systematic.{decode_layer_with_k-systematic}
use holofs.Rlnc.Encoded.{encode_layer_with_k-Consistent}
use holofs.Rlnc.Solution.{Holds, eliminate-solution}

abbrev secret : List ℕ
secret = b'h' ∷ b'o' ∷ b'l' ∷ b'o' ∷ b'f' ∷ b's' ∷ b'!' ∷ []

abbrev shards_of : Option holofs.Rlnc.Encode.Encoded → List Shard
shards_of none = []
shards_of (some e) = e.shards

-- three shares, any two of which are enough
abbrev shares : List Shard
shares = shards_of (encode_layer_with_k Gf.new secret 2 3 (Rng.new 2))

abbrev random_share : Shard
random_share = record { coeffs = 128 ∷ 197 ∷ []; payload = 8 ∷ 149 ∷ 68 ∷ 153 ∷ [] }

abbrev second_share : Shard
second_share = record { coeffs = 0 ∷ 1 ∷ []; payload = b'f' ∷ b's' ∷ b'!' ∷ 0 ∷ [] }

shares_run : drop 1 shares ≡ second_share ∷ random_share ∷ []
unfolding encode_layer_with_k resize systematic unit_vector chunk random_shards random_bytes
    guard_coeffs count_nonzero combine add_scaled Gf.new Gf.mul Rng.new Rng.byte
shares_run = refl

-- the second share and the random one give the secret back, padded
last_two :
    decode_layer_with_k Gf.new (second_share ∷ random_share ∷ []) 2 4
    ≡ Decoded.decoded (secret ++ 0 ∷ [])
unfolding decode_layer_with_k sort_with_k free_place identity_index scan decode_parts count_known
    unknown_from build_rows build_row read_all reduce_payload reduce_byte assemble position
    eliminate find_pivot swap_rows scale_row subtract_row clear_column use_pivot Gf.new Gf.mul
    Gf.inv
last_two = refl

one_share : decode_layer_with_k Gf.new (random_share ∷ []) 2 4 ≡ Decoded.undecodable
unfolding decode_layer_with_k
one_share = refl

-- Two combinations of the symbols 5 and 7 (then 0 and 0), solved.
abbrev combined : Rows
combined = (1 ∷ 1 ∷ 2 ∷ 0 ∷ []) ∷ (2 ∷ 1 ∷ 13 ∷ 0 ∷ []) ∷ []

abbrev solved_rows : Rows
solved_rows = (1 ∷ 0 ∷ 5 ∷ 0 ∷ []) ∷ (0 ∷ 1 ∷ 7 ∷ 0 ∷ []) ∷ []

combined-solved : eliminate Gf.new 0 2 combined ≡ some solved_rows
unfolding eliminate find_pivot use_pivot swap_rows scale_row subtract_row clear_column Gf.new Gf.mul
    Gf.inv
combined-solved = refl

combined-Holds : All (Holds 2 (5 ∷ 7 ∷ []) 0) combined
unfolding dot Gf.mul Gf.new
combined-Holds = (refl, (refl, tt))

eliminate-solution_example : get_or (drop 2 (get_or solved_rows 1 [])) 0 0 ≡ 7
eliminate-solution_example =
    eliminate-solution 2 2 combined solved_rows (5 ∷ 7 ∷ []) 0 1 refl (omega arith) (omega arith)
      (omega arith) combined-Holds combined-solved (omega arith)

encode_layer_with_k-Consistent_example :
    (e : Encoded) × (encode_layer_with_k Gf.new secret 2 3 (Rng.new 2) ≡ some e)
    × (length e.shards ≡ 3)
    × (take (length secret) (resize secret (2 * e.symbol_len)) ≡ secret)
    × All
        (Consistent 2 e.symbol_len (column (resize secret (2 * e.symbol_len)) e.symbol_len 1 0 2) 1)
        e.shards
encode_layer_with_k-Consistent_example =
    encode_layer_with_k-Consistent secret 2 3 1 (Rng.new 2) (λ e. omega arith) (omega arith)

-- The padded secret in two chunks of four bytes, with the second share and the random one.
abbrev padded_secret : List ℕ
padded_secret = secret ++ 0 ∷ []

secret-Fits : Fits 2 4 padded_secret
secret-Fits zero h = omega arith
secret-Fits (suc zero) h = omega arith
secret-Fits (suc (suc i)) h = absurd (omega arith)

shares-IsTrue :
    All (IsTrue padded_secret 2 4 (omega arith) secret-Fits) (second_share ∷ random_share ∷ [])
unfolding dot column chunk Gf.mul Gf.new
shares-IsTrue = (
  ((refl, omega arith), (refl, omega arith), second),
  (((refl, omega arith), (refl, omega arith), random), tt),
)
  where
    second :
        (j : ℕ)
        → j < 4
        → dot second_share.coeffs (column padded_secret 4 j 0 2) ≡ get_or second_share.payload j 0
    second zero h = refl
    second (suc zero) h = refl
    second (suc (suc zero)) h = refl
    second (suc (suc (suc zero))) h = refl
    second (suc (suc (suc (suc j)))) h = absurd (omega arith)

    random :
        (j : ℕ)
        → j < 4
        → dot random_share.coeffs (column padded_secret 4 j 0 2) ≡ get_or random_share.payload j 0
    random zero h = refl
    random (suc zero) h = refl
    random (suc (suc zero)) h = refl
    random (suc (suc (suc zero))) h = refl
    random (suc (suc (suc (suc j)))) h = absurd (omega arith)

decode_layer_with_k-Sound_example :
    Sound padded_secret 2 4
      (omega arith)
      secret-Fits
      (decode_layer_with_k Gf.new (second_share ∷ random_share ∷ []) 2 4)
decode_layer_with_k-Sound_example =
    decode_layer_with_k-Sound padded_secret 2 4 (omega arith) secret-Fits
      (second_share ∷ random_share ∷ []) shares-IsTrue

decode_layer_with_k-systematic_example :
    decode_layer_with_k Gf.new (systematic padded_secret 2 4 0 2) 2 4
    ≡ Decoded.decoded (chunks padded_secret 4 0 2)
decode_layer_with_k-systematic_example =
    decode_layer_with_k-systematic padded_secret 2 4 (omega arith) secret-Fits

abbrev encoded_of : Option Encoded → Encoded
encoded_of none = record { symbol_len = 0; shards = []; rng = Rng.new 0 }
encoded_of (some e) = e

abbrev encoded : Encoded
encoded = encoded_of (encode_layer_with_k Gf.new secret 2 3 (Rng.new 2))

encoded-made : encode_layer_with_k Gf.new secret 2 3 (Rng.new 2) ≡ some encoded
unfolding encode_layer_with_k
encoded-made = refl

last_two-made : All (λ s. In s encoded.shards) (second_share ∷ random_share ∷ [])
unfolding encode_layer_with_k resize systematic unit_vector chunk random_shards random_bytes
    guard_coeffs count_nonzero combine add_scaled Gf.new Gf.mul Rng.new Rng.byte
last_two-made = (inr (inl refl), (inr (inr (inl refl)), tt))

decode-encode_layer_with_k_example :
    (decode_layer_with_k Gf.new (second_share ∷ random_share ∷ []) 2 encoded.symbol_len
      ≡ Decoded.undecodable)
    ⊎ (decode_layer_with_k Gf.new (second_share ∷ random_share ∷ []) 2 encoded.symbol_len
        ≡ Decoded.decoded (resize secret (2 * encoded.symbol_len)))
decode-encode_layer_with_k_example =
    decode-encode_layer_with_k secret 2 3 (Rng.new 2) encoded (λ e. omega arith) (omega arith)
      encoded-made (second_share ∷ random_share ∷ []) last_two-made
