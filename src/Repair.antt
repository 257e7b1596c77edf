-- ===== src/Repair.antt =====
-- `mix_donors` of crates/holofs-core/src/repair.rs: fresh shards for a node from the shards of its peers.
pub mod Consistent
mod Tests
use holofs.Prelude.{
  ℕ, zero, suc, Bool, true, false, ◌&&◌, ◌||◌, List, [], ◌∷◌, ◌==◌, if◌then◌else◌, length,
  replicate,
}
use holofs.Shard.{Shard}
use holofs.Gf.{Gf}
use holofs.Rng.{Rng, byte}
use holofs.Rlnc.Encode.{add_scaled, default_k}

-- The loop over the donors: each adds `alpha` times itself to the coefficients and the payload.
unfoldable pub mix_into : Gf → List Shard → Shard → Rng → Rng × Shard
mix_into gf [] acc rng = (rng, acc)
mix_into gf (src ∷ donors) acc rng =
    let (rng', alpha) = byte rng in
    mix_into gf donors
      (if alpha == 0 then acc else record {
        coeffs = add_scaled gf alpha acc.coeffs src.coeffs;
        payload = add_scaled gf alpha acc.payload src.payload;
      })
      rng'

unfoldable pub all_zero : List ℕ → Bool
all_zero [] = true
all_zero (b ∷ bs) = b == 0 && all_zero bs

unfoldable pub mix_rounds : Gf → Shard → List Shard → ℕ → Rng → Rng × List Shard
mix_rounds gf first rest zero rng = (rng, [])
mix_rounds gf first rest (suc need) rng =
    let (rng', mixed) =
      mix_into gf (first ∷ rest)
        (record { coeffs = replicate default_k 0; payload = replicate (length first.payload) 0 })
        rng in
    let (rng'', out) = mix_rounds gf first rest need rng' in
    (rng'', (if all_zero mixed.coeffs then first else mixed) ∷ out)

-- The donors have `K` coefficients each and payloads of one length; otherwise the source panics.
unfoldable pub mix_donors : Gf → List Shard → ℕ → Rng → Rng × List Shard
mix_donors gf [] need rng = (rng, [])
mix_donors gf (first ∷ rest) need rng = mix_rounds gf first rest need rng
