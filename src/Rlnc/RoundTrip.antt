-- ===== src/Rlnc/RoundTrip.antt =====
-- The encoder and the decoder of crates/holofs-core/src/rlnc.rs together.
use native.Mathlib.Nat.{mul-le-mul_right}
use holofs.Prelude.{
  ℕ, suc, ◌*◌, ◌≤◌, ◌≡◌, ◌≢◌, ◌⊎◌, inl, inr, sym, ap, ◌∙◌, subst, List, [], ◌∷◌, some, some_cancel,
  In, All,
}
use holofs.Shard.{Shard}
use holofs.Gf.{new}
use holofs.Rng.{Rng}
use holofs.Rlnc.Encode.{resize, Encoded, encode_layer_with_k}
use holofs.Rlnc.Decode.{undecodable, decoded, decode_layer_with_k}
use holofs.Rlnc.Linear.{IsByte}
use holofs.Rlnc.Consistent.{Consistent}
use holofs.Rlnc.Encoder.{column, Fits}
use holofs.Rlnc.Encoded.{length-resize, resize-bytes, encode_layer_with_k-Consistent}
use holofs.Rlnc.Assembled.{decode_layer_with_k-Sound}
use holofs.Rlnc.Systematic.{All-IsTrue}
use holofs.Rlnc.Chunks.{chunks-all}

All-at : (P : Shard → Type 0) (xs : List Shard) (s : Shard) → All P xs → In s xs → P s
All-at P [] s h i = absurd i
All-at P (x ∷ xs) s h (inl e) = subst P e h.0
All-at P (x ∷ xs) s h (inr i) = All-at P xs s h.1 i

pub All-chosen :
    (P : Shard → Type 0) (xs ss : List Shard) → All P xs → All (λ s. In s xs) ss → All P ss
All-chosen P xs [] h c = tt
All-chosen P xs (s ∷ ss) h c = (All-at P xs s h c.0, All-chosen P xs ss h c.1)

module _ (input : List ℕ) (k n : ℕ) (rng : Rng) (e : Encoded) (positive : k ≢ 0)
    (bytes : All IsByte input) (made : encode_layer_with_k new input k n rng ≡ some e) where
  abbrev padded : List ℕ
  padded = resize input (k * e.symbol_len)

  pub padded-Fits : Fits k e.symbol_len padded
  padded-Fits i h =
      subst (λ m. suc i * e.symbol_len ≤ m) (sym (length-resize input (k * e.symbol_len)))
        (mul-le-mul_right e.symbol_len h)

  pub made-Consistent :
      (j : ℕ) → All (Consistent k e.symbol_len (column padded e.symbol_len j 0 k) j) e.shards
  made-Consistent j =
      let (e', again, _, _, all) = encode_layer_with_k-Consistent input k n j rng positive bytes in
      subst
        (λ d.
          All
            (Consistent k d.symbol_len (column (resize input (k * d.symbol_len)) d.symbol_len j 0 k)
              j)
            d.shards)
        (some_cancel (sym again ∙ made)) all

  -- The coder as a whole: from any of the shards that the encoder made of a layer of bytes, systematic or
  -- random, in any number and order and with repetitions, the decoder returns either nothing or the
  -- padded layer. It never returns other data, and never panics.
  pub decode-encode_layer_with_k :
      (chosen : List Shard)
      → All (λ s. In s e.shards) chosen
      → (decode_layer_with_k new chosen k e.symbol_len ≡ undecodable)
        ⊎ (decode_layer_with_k new chosen k e.symbol_len ≡ decoded padded)
  decode-encode_layer_with_k chosen from =
      let hp = resize-bytes input (k * e.symbol_len) bytes in
      let all = All-IsTrue padded k e.symbol_len hp padded-Fits e.shards made-Consistent in
      let whole = chunks-all padded e.symbol_len k (length-resize input (k * e.symbol_len)) in
      elim (decode_layer_with_k-Sound padded k e.symbol_len hp padded-Fits chosen
        (All-chosen _ e.shards chosen all from)) [
          | inl none_left ↦ inl none_left
          | inr good ↦ inr (good ∙ ap decoded whole)
        ]
