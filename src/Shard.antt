-- ===== src/Shard.antt =====
-- `Shard` of crates/holofs-core/src/rlnc.rs: a coefficient vector and a payload, both bytes.
use holofs.Prelude.{ℕ, List}

pub record Shard : Type 0 where
  pub coeffs : List ℕ
  pub payload : List ℕ
