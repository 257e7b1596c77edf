-- ===== src/Repair/Tests.antt =====
-- A run of the repair at concrete donors, and the theorem there.
use holofs.Prelude.{ℕ, ◌≡◌, ◌≢◌, refl, List, [], ◌∷◌, All, length, replicate, arith}
use holofs.Shard.{Shard}
use holofs.Gf.{new, mul}
use holofs.Rng
use holofs.Rlnc.Linear.{dot}
use holofs.Rlnc.Consistent.{Consistent}
use holofs.Repair.{mix_donors}
use holofs.Repair.Consistent.{mix_donors-Consistent}

-- Two systematic shards: of the first and of the second chunk.
abbrev donors : List Shard
donors =
    record { coeffs = 1 ∷ replicate 15 0; payload = 9 ∷ 4 ∷ [] }
    ∷ record { coeffs = 0 ∷ 1 ∷ replicate 14 0; payload = 7 ∷ 3 ∷ [] }
    ∷ []

-- The first byte of each chunk.
abbrev first_bytes : List ℕ
first_bytes = 9 ∷ 7 ∷ replicate 14 0

donors-Consistent : All (Consistent 16 2 first_bytes 0) donors
unfolding dot mul new
donors-Consistent = (
  ((refl, omega arith), (refl, omega arith), refl),
  (((refl, omega arith), (refl, omega arith), refl), tt),
)

mix_donors-Consistent_example :
    All (Consistent 16 2 first_bytes 0) (mix_donors new donors 3 (holofs.Rng.new 7)).1
    × (donors ≢ [] → length (mix_donors new donors 3 (holofs.Rng.new 7)).1 ≡ 3)
mix_donors-Consistent_example =
    mix_donors-Consistent 2 first_bytes (omega arith) 0 donors 3 (holofs.Rng.new 7)
      donors-Consistent
