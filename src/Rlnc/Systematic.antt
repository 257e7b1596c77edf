-- ===== src/Rlnc/Systematic.antt =====
-- The systematic shards of crates/holofs-core/src/rlnc.rs are enough for its decoder.
use holofs.Prelude.{
  ℕ, zero, suc, ◌+◌, ◌<◌, ◌≡◌, ◌≢◌, inl, inr, refl, ap, ap₂, ◌∙◌, List, [], ◌∷◌, ◌++◌, map, Option,
  none, some, All, length, length-append, get_or, set, replicate, lt→ltb, ge→ltb, ==_iff, arith,
}
use holofs.Shard.{Shard}
use holofs.Gf.{new}
use holofs.Rlnc.Encode.{chunk, unit_vector, systematic}
use holofs.Rlnc.Consistent.{Consistent}
use holofs.Rlnc.Decode.{
  or_panic, undecodable, decoded, scan, identity_index, Known, Parts, free_place, sort_with_k,
  count_known, assemble, decode_parts, decode_layer_with_k,
}
use holofs.Rlnc.Linear.{IsByte}
use holofs.Rlnc.Encoder.{Fits, column, systematic-Consistent}
use holofs.Rlnc.Known.{IsTrue}
use holofs.Rlnc.Assembled.{chunks, decode_layer_with_k-Sound}

scan-replicate : (n i q : ℕ) → scan i (some q) (replicate n 0) ≡ some (some q)
unfolding scan
scan-replicate zero i q = refl
scan-replicate (suc n) i q = scan-replicate n (i + 1) q

scan-unit_vector : (k i q : ℕ) → q < k → scan i none (unit_vector k q) ≡ some (some (i + q))
unfolding scan unit_vector
scan-unit_vector zero i q h = absurd (omega arith)
scan-unit_vector (suc k) i zero h =
    let z : i ≡ i + 0 = omega arith in scan-replicate k (i + 1) i ∙ ap (λ t. some (some t)) z
scan-unit_vector (suc k) i (suc q) h =
    let z : i + 1 + q ≡ i + suc q = omega arith in
    scan-unit_vector k (i + 1) q (omega arith) ∙ ap (λ t. some (some t)) z

pub identity_index-unit_vector : (k q : ℕ) → q < k → identity_index (unit_vector k q) ≡ some q
unfolding identity_index
identity_index-unit_vector k q h =
    let z : 0 + q ≡ q = omega arith in rw (scan-unit_vector k 0 q h, identity_index) (ap some z)

-- The chunks known after the first `length cs` systematic shards.
abbrev so_far : List (List ℕ) → ℕ → Known
so_far cs n = map some cs ++ replicate n none

get_or-so_far : (cs : List (List ℕ)) (n : ℕ) → get_or (so_far cs (suc n)) (length cs) none ≡ none
get_or-so_far [] n = refl
get_or-so_far (c ∷ cs) n = get_or-so_far cs n

set-so_far :
    (cs : List (List ℕ)) (n : ℕ) (c : List ℕ)
    → set (so_far cs (suc n)) (length cs) (some c) ≡ so_far (cs ++ c ∷ []) n
set-so_far [] n c = refl
set-so_far (d ∷ cs) n c = ap (λ t. some d ∷ t) (set-so_far cs n c)

count_known-so_far : (cs : List (List ℕ)) → count_known (so_far cs 0) ≡ length cs
unfolding count_known
count_known-so_far [] = refl
count_known-so_far (c ∷ cs) = ap suc (count_known-so_far cs)

free_place-so_far :
    (k n : ℕ) (cs : List (List ℕ))
    → length cs < k
    → free_place k (so_far cs (suc n)) (some (length cs)) ≡ some (length cs)
unfolding free_place
free_place-so_far k n cs h = rw (lt→ltb (length cs) k h) (rw (get_or-so_far cs n) refl)

sort_with_k-systematic :
    (padded : List ℕ) (k sl n : ℕ) (cs : List (List ℕ))
    → length cs + n ≡ k
    → count_known (sort_with_k k (so_far cs n) (systematic padded k sl (length cs) n)).known ≡ k
unfolding sort_with_k systematic
sort_with_k-systematic padded k sl zero cs e = count_known-so_far cs ∙ omega arith
sort_with_k-systematic padded k sl (suc n) cs e =
    let c = chunk padded sl (length cs) in
    let next : length cs + 1 ≡ length (cs ++ c ∷ []) = omega (arith, length-append cs (c ∷ [])) in
    rw (identity_index-unit_vector k (length cs) (omega arith)) (
      rw (free_place-so_far k n cs (omega arith)) (
        ap₂ (λ kn m. count_known (sort_with_k k kn (systematic padded k sl m n)).known)
          (set-so_far cs n c) next
        ∙ sort_with_k-systematic padded k sl n (cs ++ c ∷ []) (omega arith)))

not_undecodable : (o : Option (List ℕ)) → or_panic o ≢ undecodable
not_undecodable none e = cc
not_undecodable (some out) e = cc

-- With all chunks known there is something to put together.
pub decode_parts-known :
    (k sl : ℕ) (parts : Parts)
    → count_known parts.known ≡ k
    → decode_parts new k sl parts ≢ undecodable
unfolding decode_parts
decode_parts-known k sl parts e bad =
    not_undecodable (assemble 0 [] [] 0 parts.known)
      (rw ((==_iff (count_known parts.known) k).1 e) at bad)

module _ (padded : List ℕ) (k sl : ℕ) (hp : All IsByte padded) (fits : Fits k sl padded) where
  -- Shards that are consistent in every column are true to the chunks.
  pub All-IsTrue :
      (ss : List Shard)
      → ((j : ℕ) → All (Consistent k sl (column padded sl j 0 k) j) ss)
      → All (IsTrue padded k sl hp fits) ss
  All-IsTrue [] h = tt
  All-IsTrue (s ∷ ss) h = (((h 0).0.0, (h 0).0.1, λ j b. (h j).0.2), All-IsTrue ss (λ j. (h j).1))

  -- Fast path: for the bytes of `k` chunks of `sl` bytes, the decoder gives all chunks back from the `k`
  -- systematic shards of the encoder.
  pub decode_layer_with_k-systematic :
      decode_layer_with_k new (systematic padded k sl 0 k) k sl ≡ decoded (chunks padded sl 0 k)
  unfolding decode_layer_with_k
  decode_layer_with_k-systematic =
      let shards = systematic padded k sl 0 k in
      let consistent = λ (j : ℕ). systematic-Consistent padded k sl hp fits j 0 k (omega arith) in
      let true_shards = All-IsTrue shards (λ j. (consistent j).0) in
      let few = ge→ltb (length shards) k (omega (arith, (consistent 0).1)) in
      let count = sort_with_k-systematic padded k sl k [] (omega arith) in
      elim (decode_layer_with_k-Sound padded k sl hp fits shards true_shards) [
        | inl bad ↦ absurd (
            decode_parts-known k sl (sort_with_k k (replicate k none) shards) count (rw few at bad))
        | inr good ↦ good
      ]
