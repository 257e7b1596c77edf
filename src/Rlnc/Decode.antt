-- ===== src/Rlnc/Decode.antt =====
-- `decode_layer_with_k`, `decode_layer` and `decode_layer_with_holes` of crates/holofs-core/src/rlnc.rs.
use mathlib.Core.Option
use holofs.Prelude.{
  ℕ, zero, suc, ◌+◌, ◌-◌, bit_xor, Bool, true, false, ◌&&◌, List, [], ◌∷◌, ◌++◌, Option, none, some,
  ltb, ◌==◌, if◌then◌else◌, length, get_elem?, get_or, set, drop, replicate,
}
use holofs.Shard.{Shard}
use holofs.Gf.{Gf, mul}
use holofs.Rlnc.Encode.{default_k}
use holofs.Rlnc.Gauss.{Rows, eliminate}

-- `panic` is a read out of range; `undecodable` is the result `None`.
pub data Decoded : Type 0 where
  panic undecodable : Decoded
  decoded : List ℕ → Decoded

abbrev pub is_none {ℓ} : {A : Type ℓ} → Option A → Bool
is_none none = true
is_none (some a) = false

-- The scan of a coefficient vector from position `i` on: the place of a single 1 among zeros. `none`
-- is the early return of `identity_index`, and `bad` in `decode_layer_with_k`; `some none` is a vector of
-- zeros.
unfoldable pub scan : ℕ → Option ℕ → List ℕ → Option (Option ℕ)
scan i idx [] = some idx
scan i idx (c ∷ cs) =
    let one = scan (i + 1) (some i) cs in
    let skip = scan (i + 1) idx cs in
    if c == 1 then (if is_none idx then one else none) else if c == 0 then skip else none

unfoldable pub identity_index : List ℕ → Option ℕ
identity_index coeffs = elim (scan 0 none coeffs) [ some idx ↦ idx | none ↦ none ]

abbrev pub Known : Type 0
Known = List (Option (List ℕ))

pub record Parts : Type 0 where
  pub known : Known
  pub rlnc : List Shard

-- Where a systematic shard goes: a place of `known` that is still free.
unfoldable pub free_place : ℕ → Known → Option ℕ → Option ℕ
free_place k known none = none
free_place k known (some i) = if ltb i k && is_none (get_or known i none) then some i else none

abbrev pub keep_shard : Shard → Option ℕ → Known → (Known → Parts) → Parts
keep_shard s (some i) known rest = rest (set known i (some s.payload))
keep_shard s none known rest =
    let parts = rest known in record { known = parts.known; rlnc = s ∷ parts.rlnc }

-- The loop of `decode_layer_with_k` over the shards: what is no new systematic shard joins `rlnc`.
unfoldable pub sort_with_k : ℕ → Known → List Shard → Parts
sort_with_k k known [] = record { known = known; rlnc = [] }
sort_with_k k known (s ∷ ss) =
    keep_shard s (free_place k known (identity_index s.coeffs)) known (λ kn. sort_with_k k kn ss)

unfoldable pub count_known : Known → ℕ
count_known [] = 0
count_known (none ∷ known) = count_known known
count_known (some c ∷ known) = suc (count_known known)

-- The positions from `i` on that are not known.
unfoldable pub unknown_from : ℕ → Known → List ℕ
unknown_from i [] = []
unknown_from i (none ∷ known) = i ∷ unknown_from (i + 1) known
unknown_from i (some c ∷ known) = unknown_from (i + 1) known

-- `none` of the following is a read out of range.
infixl 10 ◌>>=◌
abbrev pub ◌>>=◌ {ℓ κ} : {A : Type ℓ} {B : Type κ} → Option A → (A → Option B) → Option B
none >>= f = none
some a >>= f = f a

-- The coefficients at the unknown positions.
unfoldable pub read_all : List ℕ → List ℕ → Option (List ℕ)
read_all coeffs [] = some []
read_all coeffs (pos ∷ rest) = do c ← get_elem? coeffs pos; cs ← read_all coeffs rest; some (c ∷ cs)

-- `byte` without what the known chunks, from position `i` on, add to it in column `j`.
unfoldable pub reduce_byte : Gf → List ℕ → ℕ → ℕ → Known → ℕ → Option ℕ
reduce_byte gf coeffs j i [] byte = some byte
reduce_byte gf coeffs j i (none ∷ known) byte = reduce_byte gf coeffs j (i + 1) known byte
reduce_byte gf coeffs j i (some chunk ∷ known) byte = do
  c ← get_elem? coeffs i
  y ← (if c == 0 then some 0 else Option.map (mul gf c) (get_elem? chunk j))
  reduce_byte gf coeffs j (i + 1) known (bit_xor byte y)

-- The payload bytes of a row from `j` on, `n` of them.
unfoldable pub reduce_payload : Gf → Shard → Known → ℕ → ℕ → Option (List ℕ)
reduce_payload gf s known j zero = some []
reduce_payload gf s known j (suc n) = do
  byte ← get_elem? s.payload j
  reduced ← reduce_byte gf s.coeffs j 0 known byte
  rest ← reduce_payload gf s known (j + 1) n
  some (reduced ∷ rest)

unfoldable pub build_row : Gf → ℕ → Known → Shard → Option (List ℕ)
build_row gf symbol_len known s = do
  left ← read_all s.coeffs (unknown_from 0 known)
  right ← reduce_payload gf s known 0 symbol_len
  some (left ++ right)

unfoldable pub build_rows : Gf → ℕ → Known → List Shard → Option Rows
build_rows gf symbol_len known [] = some []
build_rows gf symbol_len known (s ∷ ss) = do
  row ← build_row gf symbol_len known s
  rows ← build_rows gf symbol_len known ss
  some (row ∷ rows)

-- `unknown_positions.iter().position(|&p| p == i)`
unfoldable pub position : ℕ → List ℕ → Option ℕ
position i [] = none
position i (p ∷ ps) = let later = Option.map suc (position i ps) in if p == i then some 0 else later

-- The chunks from position `i` on: a known one, or the payload of the row that solves it.
unfoldable pub assemble : ℕ → List ℕ → Rows → ℕ → Known → Option (List ℕ)
assemble n_unknown unknown rows i [] = some []
assemble n_unknown unknown rows i (some chunk ∷ known) = do
  rest ← assemble n_unknown unknown rows (i + 1) known
  some (chunk ++ rest)
assemble n_unknown unknown rows i (none ∷ known) = do
  row_idx ← position i unknown
  row ← get_elem? rows row_idx
  rest ← assemble n_unknown unknown rows (i + 1) known
  some (drop n_unknown row ++ rest)

abbrev pub or_panic : Option (List ℕ) → Decoded
or_panic none = panic
or_panic (some out) = decoded out

abbrev solved : Option Rows → (Rows → Decoded) → Decoded
solved none rest = undecodable
solved (some rows) rest = rest rows

abbrev built : Option Rows → (Rows → Decoded) → Decoded
built none rest = panic
built (some rows) rest = rest rows

-- What is done once the shards are sorted.
unfoldable pub decode_parts : Gf → ℕ → ℕ → Parts → Decoded
decode_parts gf k symbol_len parts =
    let n_known = count_known parts.known in
    let n_unknown = k - n_known in
    let unknown = unknown_from 0 parts.known in
    let elimination = built (build_rows gf symbol_len parts.known parts.rlnc) (λ rows.
      solved (eliminate gf 0 n_unknown rows)
        (λ rows'. or_panic (assemble n_unknown unknown rows' 0 parts.known))) in
    if n_known == k
    then or_panic (assemble 0 [] [] 0 parts.known)
    else if ltb (length parts.rlnc) n_unknown
    then undecodable
    else elimination

unfoldable pub decode_layer_with_k : Gf → List Shard → ℕ → ℕ → Decoded
decode_layer_with_k gf shards k symbol_len =
    if ltb (length shards) k
    then undecodable
    else decode_parts gf k symbol_len (sort_with_k k (replicate k none) shards)

abbrev pub sort_one : Shard → Option ℕ → Known → (Known → Option Parts) → Option Parts
sort_one s none known rest = do
  parts ← rest known
  some (record { known = parts.known; rlnc = s ∷ parts.rlnc })
sort_one s (some i) known rest = elim (get_elem? known i) [
  | none ↦ none
  | some none ↦ rest (set known i (some s.payload))
  | some (some chunk) ↦ rest known
]

-- The loop of `decode_layer` over the shards: a second shard for a place is dropped, and a place
-- beyond `K` is a read out of range.
unfoldable pub sort_layer : Known → List Shard → Option Parts
unfolding identity_index
sort_layer known [] = some (record { known = known; rlnc = [] })
sort_layer known (s ∷ ss) = sort_one s (identity_index s.coeffs) known (λ kn. sort_layer kn ss)

abbrev sorted : Option Parts → (Parts → Decoded) → Decoded
sorted none rest = panic
sorted (some parts) rest = rest parts

unfoldable pub decode_layer : Gf → List Shard → ℕ → Decoded
decode_layer gf shards symbol_len =
    if ltb (length shards) default_k
    then undecodable
    else sorted (sort_layer (replicate default_k none) shards)
        (decode_parts gf default_k symbol_len)
