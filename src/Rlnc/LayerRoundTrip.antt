-- ===== src/Rlnc/LayerRoundTrip.antt =====
-- `encode_layer` and `decode_layer` of crates/holofs-core/src/rlnc.rs together.
use holofs.Prelude.{
  ℕ, zero, suc, ◌+◌, ◌-◌, ◌*◌, ◌/◌, ◌<◌, ◌≤◌, ◌≡◌, ◌≢◌, ◌⊎◌, inl, inr, refl, ap, ◌∙◌, subst, min,
  List, ◌++◌, none, some, some_cancel, In, All, length, replicate, ltb, ltb→lt, Bool-cases, arith,
}
use holofs.Shard.{Shard}
use holofs.Gf.{new}
use holofs.Rng.{Rng}
use holofs.Rlnc.Encode.{
  default_k, chunk, resize, unit_vector, systematic, random_shards, Encoded, encode_layer_with_k,
  encode_layer,
}
use holofs.Rlnc.Decode.{undecodable, decoded, count_known, identity_index, decode_layer}
use holofs.Rlnc.Linear.{IsByte}
use holofs.Rlnc.Encoder.{Fits}
use holofs.Rlnc.Known.{IsTrue}
use holofs.Rlnc.Encoded.{length-resize, resize-bytes}
use holofs.Rlnc.Assembled.{chunks, Sound, decode_parts-Sound, none-IsGood}
use holofs.Rlnc.Systematic.{decode_parts-known, identity_index-unit_vector, All-IsTrue}
use holofs.Rlnc.Chunks.{chunks-all}
use holofs.Rlnc.RoundTrip.{padded-Fits, made-Consistent, All-chosen}
use holofs.Rlnc.Layer.{all-Filled, sort_layer-Sorts}

count_none : (n : ℕ) → count_known (replicate n none) ≡ 0
unfolding count_known
count_none zero = refl
count_none (suc n) = count_none n

module _ (padded : List ℕ) (sl : ℕ) (hp : All IsByte padded) (fits : Fits default_k sl padded) where
  abbrev True : Shard → Type 0
  True = IsTrue padded default_k sl hp fits

  pub decode_layer-Sound :
      (shards : List Shard)
      → All True shards
      → Sound padded default_k sl hp fits (decode_layer new shards sl)
  unfolding decode_layer
  decode_layer-Sound shards h = elim (Bool-cases (ltb (length shards) default_k)) [
    | inl few ↦ rw few (inl refl)
    | inr enough ↦
        let (parts, e, areSorted, gains) =
          sort_layer-Sorts padded default_k sl hp fits shards (replicate default_k none) h
            (none-IsGood padded default_k sl hp fits default_k 0) refl in
        rw enough (rw e (decode_parts-Sound padded default_k sl hp fits parts areSorted))
  ]

  -- With a systematic shard of every chunk there is a result.
  pub decode_layer_complete :
      (shards : List Shard)
      → All True shards
      → ((p : ℕ) → p < default_k → (t : Shard) × In t shards × (identity_index t.coeffs ≡ some p))
      → decode_layer new shards sl ≢ undecodable
  unfolding decode_layer
  decode_layer_complete shards h every =
      let (parts, e, (good, size, rows), gains) =
        sort_layer-Sorts padded default_k sl hp fits shards (replicate default_k none) h
          (none-IsGood padded default_k sl hp fits default_k 0) refl in
      let all =
        all-Filled parts.known
          (λ p lt. let (t, i, unit) = every p (omega arith) in gains.fills p t i unit)
        ∙ size in
      let some_left = count_none default_k in
      elim (Bool-cases (ltb (length shards) default_k)) [
        | inl few ↦
            let lt = ltb→lt (length shards) default_k few in absurd (omega (arith, gains.counts))
        | inr enough ↦ rw enough (rw e (λ bad. decode_parts-known default_k sl parts all bad))
      ]

In-systematic :
    (padded : List ℕ) (sl i n p : ℕ) (more : List Shard)
    → p < n
    → (t : Shard) × In t (systematic padded default_k sl i n ++ more)
      × (t.coeffs ≡ unit_vector default_k (i + p))
unfolding systematic
In-systematic padded sl i zero p more h = absurd (omega arith)
In-systematic padded sl i (suc n) zero more h =
    let z : i ≡ i + 0 = omega arith in
    (
      record { coeffs = unit_vector default_k i; payload = chunk padded sl i },
      inl refl,
      ap (unit_vector default_k) z,
    )
In-systematic padded sl i (suc n) (suc p) more h =
    let (t, at, e) = In-systematic padded sl (i + 1) n p more (omega arith) in
    let z : i + 1 + p ≡ i + suc p = omega arith in (t, inr at, e ∙ ap (unit_vector default_k) z)

-- The first `K` shards of a layer are its systematic ones.
In-encoded :
    (input : List ℕ) (n : ℕ) (rng : Rng) (e : Encoded) (p : ℕ)
    → encode_layer new input n rng ≡ some e
    → default_k ≤ n
    → p < default_k
    → (t : Shard) × In t e.shards × (identity_index t.coeffs ≡ some p)
unfolding encode_layer encode_layer_with_k
In-encoded input n rng e p made enough lt =
    let sl = (length input + default_k - 1) / default_k in
    let padded = resize input (default_k * sl) in
    let random = (random_shards new padded default_k sl (n - min n default_k) rng).1 in
    let (t, at, unit) = In-systematic padded sl 0 (min n default_k) p random (omega arith) in
    let z : 0 + p ≡ p = omega arith in
    (
      t,
      subst (λ (d : Encoded). In t d.shards) (some_cancel made) at,
      ap identity_index (unit ∙ ap (unit_vector default_k) z)
          ∙ identity_index-unit_vector default_k p lt,
    )

module _ (input : List ℕ) (n : ℕ) (rng : Rng) (e : Encoded) (bytes : All IsByte input)
    (made : encode_layer new input n rng ≡ some e) where
  abbrev pub layer : List ℕ
  layer = resize input (default_k * e.symbol_len)

  positive : default_k ≢ 0
  positive h = omega arith

  made_with_k : encode_layer_with_k new input default_k n rng ≡ some e
  unfolding encode_layer
  made_with_k = made

  layer-bytes : All IsByte layer
  layer-bytes = resize-bytes input (default_k * e.symbol_len) bytes

  layer-Fits : Fits default_k e.symbol_len layer
  layer-Fits = padded-Fits input default_k n rng e positive bytes made_with_k

  abbrev TrueShard : Shard → Type 0
  TrueShard = IsTrue layer default_k e.symbol_len layer-bytes layer-Fits

  chosen-true : (chosen : List Shard) → All (λ s. In s e.shards) chosen → All TrueShard chosen
  chosen-true chosen from =
      All-chosen TrueShard e.shards chosen
        (All-IsTrue layer default_k e.symbol_len layer-bytes layer-Fits e.shards
          (made-Consistent input default_k n rng e positive bytes made_with_k))
        from

  whole : chunks layer e.symbol_len 0 default_k ≡ layer
  whole = chunks-all layer e.symbol_len default_k (length-resize input (default_k * e.symbol_len))

  -- From any of the shards that the encoder made of a layer the decoder of the client returns nothing or
  -- the padded layer.
  pub decode-encode_layer :
      (chosen : List Shard)
      → All (λ s. In s e.shards) chosen
      → (decode_layer new chosen e.symbol_len ≡ undecodable)
        ⊎ (decode_layer new chosen e.symbol_len ≡ decoded layer)
  decode-encode_layer chosen from =
      elim (decode_layer-Sound layer e.symbol_len layer-bytes layer-Fits chosen
        (chosen-true chosen from)) [
          | inl none_left ↦ inl none_left
          | inr good ↦ inr (good ∙ ap decoded whole)
        ]

  -- From a list of them that misses none it returns the padded layer, if at least `K` were made.
  pub decode-encode_layer_complete :
      (chosen : List Shard)
      → All (λ s. In s e.shards) chosen
      → default_k ≤ n
      → ((s : Shard) → In s e.shards → In s chosen)
      → decode_layer new chosen e.symbol_len ≡ decoded layer
  decode-encode_layer_complete chosen from enough all = elim (decode-encode_layer chosen from) [
    | inl bad ↦ absurd (
        decode_layer_complete layer e.symbol_len layer-bytes layer-Fits chosen
          (chosen-true chosen from)
          (λ p lt.
            let (t, at, unit) = In-encoded input n rng e p made enough lt in (t, all t at, unit))
          bad)
    | inr good ↦ good
  ]
