-- ===== src/Repair/Consistent.antt =====
-- Mixing donors in crates/holofs-core/src/repair.rs keeps shards true to the source chunks.
use holofs.Prelude.{
  ℕ, zero, suc, ◌≡◌, ◌≢◌, inl, inr, refl, sym, ap, ap₂, ◌∙◌, subst, bit_xor, Bool, true, false,
  List, [], ◌∷◌, All, length, replicate, ◌==◌, if◌then◌else◌, Bool-cases, arith,
}
use holofs.Shard.{Shard}
use holofs.Gf.{new, mul}
use holofs.Rng.{Rng, byte}
use holofs.Rlnc.Encode.{add_scaled, default_k}
use holofs.Rlnc.Linear.{IsByte, IsRow, dot-subtract_row, get_or-subtract_row, subtract_row-IsRow}
use holofs.Rlnc.Consistent.{
  Consistent, add_scaled-subtract_row, zeros-IsRow, dot-zeros, get_or-zeros, byte-IsByte,
}
use holofs.Repair.{mix_into, all_zero, mix_rounds, mix_donors}

length-mix_rounds :
    (first : Shard) (rest : List Shard) (need : ℕ) (rng : Rng)
    → length (mix_rounds new first rest need rng).1 ≡ need
unfolding mix_rounds
length-mix_rounds first rest zero rng = refl
length-mix_rounds first rest (suc need) rng = ap suc (length-mix_rounds first rest need _)

module _ (sl : ℕ) (xs : List ℕ) (hx : All IsByte xs) (j : ℕ) where
  add_donor :
      (alpha : ℕ) (acc src : Shard)
      → IsByte alpha
      → Consistent default_k sl xs j acc
      → Consistent default_k sl xs j src
      → Consistent default_k sl xs j (record {
        coeffs = add_scaled new alpha acc.coeffs src.coeffs;
        payload = add_scaled new alpha acc.payload src.payload;
      })
  add_donor alpha acc src ha (ac, ap', ae) (sc, sp, se) =
      rw
        (
          add_scaled-subtract_row alpha acc.coeffs src.coeffs,
          add_scaled-subtract_row alpha acc.payload src.payload,
        )
        (
          subtract_row-IsRow alpha default_k acc.coeffs src.coeffs ha ac sc,
          subtract_row-IsRow alpha sl acc.payload src.payload ha ap' sp,
          dot-subtract_row alpha acc.coeffs src.coeffs xs (omega (arith, ac.0, sc.0)) ha ac.1 sc.1
                hx
              ∙ ap₂ (λ a b. bit_xor a (mul new alpha b)) ae se
              ∙ sym (
                  get_or-subtract_row alpha acc.payload src.payload j (omega (arith, ap'.0, sp.0))),
        )

  mix_into-Consistent :
      (donors : List Shard) (acc : Shard) (rng : Rng)
      → All (Consistent default_k sl xs j) donors
      → Consistent default_k sl xs j acc
      → Consistent default_k sl xs j (mix_into new donors acc rng).1
  unfolding mix_into
  mix_into-Consistent [] acc rng hd ha = ha
  mix_into-Consistent (src ∷ donors) acc rng hd ha =
      let alpha = (byte rng).1 in
      mix_into-Consistent donors _ (byte rng).0 hd.1 (elim (Bool-cases (alpha == 0)) [
        | inl t ↦ rw t ha
        | inr f ↦ rw f (add_donor alpha acc src (byte-IsByte rng) ha hd.0)
      ])

  either :
      (b : Bool) (first mixed : Shard)
      → Consistent default_k sl xs j first
      → Consistent default_k sl xs j mixed
      → Consistent default_k sl xs j (if b then first else mixed)
  either true first mixed hf hm = hf
  either false first mixed hf hm = hm

  mix_rounds-Consistent :
      (first : Shard) (rest : List Shard) (need : ℕ) (rng : Rng)
      → All (Consistent default_k sl xs j) (first ∷ rest)
      → All (Consistent default_k sl xs j) (mix_rounds new first rest need rng).1
  unfolding mix_rounds
  mix_rounds-Consistent first rest zero rng h = tt
  mix_rounds-Consistent first rest (suc need) rng h =
      let start =
        mix_into-Consistent (first ∷ rest)
          (record { coeffs = replicate default_k 0; payload = replicate (length first.payload) 0 })
          rng h
          (
            zeros-IsRow default_k,
            subst (λ n. IsRow sl (replicate n 0)) (sym h.0.1.0) (zeros-IsRow sl),
            dot-zeros default_k xs ∙ sym (get_or-zeros (length first.payload) j),
          ) in
      (either (all_zero _) first _ h.0 start, mix_rounds-Consistent first rest need _ h)

  -- Repair makes true shards of true shards: when every donor is the combination of the source chunks that
  -- its coefficients say, in the payload column `j`, so is every shard that is mixed from them, and there
  -- are as many as needed if there is a donor.
  pub mix_donors-Consistent :
      (donors : List Shard) (need : ℕ) (rng : Rng)
      → All (Consistent default_k sl xs j) donors
      → All (Consistent default_k sl xs j) (mix_donors new donors need rng).1
        × (donors ≢ [] → length (mix_donors new donors need rng).1 ≡ need)
  unfolding mix_donors
  mix_donors-Consistent [] need rng h = (tt, λ ne. absurd (ne refl))
  mix_donors-Consistent (first ∷ rest) need rng h =
      (mix_rounds-Consistent first rest need rng h, λ ne. length-mix_rounds first rest need rng)
