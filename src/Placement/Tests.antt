-- ===== src/Placement/Tests.antt =====
-- Runs of the placement, and the theorems at a concrete cluster.
use holofs.Prelude.{ℕ, ◌≡◌, refl, List, [], ◌∷◌, some, In, arith, cons_ne_nil}
use holofs.Placement.{
  round_robin, ShardKey, mix64, rendezvous_hash, best_from, search_from, binary_search_ok,
  step_forward, start_position, round_robin_place, rendezvous_place, place,
}
use holofs.Placement.BinarySearch.{IsSorted, nil-IsSorted, cons-IsSorted}
use holofs.Placement.Rendezvous.{without, rendezvous-minimal_disturbance}
use holofs.Placement.RoundRobin.{place-total}

abbrev key : ShardKey
key = record { object_id = 0xabcd; channel = 1; layer = 2; shard_idx = 3 }

abbrev live : List ℕ
live = 0 ∷ 2 ∷ 4 ∷ 6 ∷ []

chosen : rendezvous_place key live ≡ some 2
unfolding rendezvous_place best_from rendezvous_hash mix64
chosen = refl

live-IsSorted : IsSorted live
live-IsSorted = cons-IsSorted 0 (2 ∷ 4 ∷ 6 ∷ []) (omega arith) (
    cons-IsSorted 2 (4 ∷ 6 ∷ []) (omega arith)
      (cons-IsSorted 4 (6 ∷ []) (omega arith) (cons-IsSorted 6 [] tt nil-IsSorted)))

around : round_robin_place key 8 live ≡ some 4
unfolding round_robin_place start_position step_forward binary_search_ok search_from mix64
around = refl

rendezvous-minimal_disturbance_example : rendezvous_place key (without 6 live) ≡ some 2
rendezvous-minimal_disturbance_example =
    rendezvous-minimal_disturbance key live 6 2 chosen (λ e. omega arith)

place-total_example : (node : ℕ) × (place round_robin key 8 live ≡ some node) × In node live
place-total_example =
    place-total round_robin key 8 live (cons_ne_nil _ _) live-IsSorted (omega arith)
