-- ===== src/Client/Places.antt =====
-- The places of the shards of crates/holofs-client/src/client.rs on live nodes, and the check of received shards.
use holofs.Prelude.{
  ℕ, ◌%◌, ◌^◌, ◌<◌, ◌≡◌, ◌≢◌, inl, inr, refl, subst, true, Bool-cases, List, [], ◌∷◌, map, Option,
  some, In, All, length, get_elem?, take, length-take, list_eq, list_eq_refl, arith,
}
use holofs.Shard.{Shard}
use holofs.Codec.Bytes.{from_be_bytes}
use holofs.Sha256.Digest.{finalize-bytes, from_be_bytes-bound}
use holofs.Merkle.{shard_hash}
use holofs.Placement.{Placement, round_robin, rendezvous, rendezvous_zone_aware}
use holofs.Placement.BinarySearch.{IsSorted}
use holofs.Placement.RoundRobin.{place-total}
use holofs.Manifest.{Manifest}
use holofs.Manifest.Place.{shard_key, by_scheme, place_shard}
use holofs.Rlnc.Encoder.{All-take}
use holofs.Client.Gather.{contains, verified}
use holofs.Client.Opaque.{opaque_cid, id_of}
use holofs.Client.Integrity.{inside}
use holofs.Client.Complete.{HavePlaces}

-- `object_id` is a number of eight bytes.
pub id_of-bound : (content_type bytes : List ℕ) → id_of (opaque_cid content_type bytes) < 2 ^ 64
unfolding id_of opaque_cid
id_of-bound content_type bytes =
    let cid = opaque_cid content_type bytes in
    let (len, all) = finalize-bytes _ in
    let eight : length (take 8 cid) ≡ 8 = omega (arith, length-take 8 cid, len) in
    subst (λ n. from_be_bytes (take 8 cid) < 256 ^ n) eight
      (from_be_bytes-bound (take 8 cid) (All-take 8 cid all))

contains-made :
    (s : Shard) (made : List Shard)
    → In s made
    → contains (map shard_hash made) (shard_hash s) ≡ true
unfolding contains
contains-made s [] i = absurd i
contains-made s (x ∷ made) (inl e) = rw e (rw (list_eq_refl (shard_hash s)) refl)
contains-made s (x ∷ made) (inr i) = elim (Bool-cases (list_eq (shard_hash x) (shard_hash s))) [
  | inl t ↦ rw t refl
  | inr f ↦ rw f (contains-made s made i)
]

-- A made shard that was received passes the check.
pub verified-keeps :
    (s : Shard) (raw made : List Shard)
    → In s raw
    → In s made
    → In s (verified (map shard_hash made) raw)
unfolding verified
verified-keeps s [] made i im = absurd i
verified-keeps s (x ∷ raw) made (inl e) im =
    let known = contains-made s made im in rw e (rw known (inl refl))
verified-keeps s (x ∷ raw) made (inr i) im =
    elim (Bool-cases (contains (map shard_hash made) (shard_hash x))) [
      | inl t ↦ rw t (inr (verified-keeps s raw made i im))
      | inr f ↦ rw f (verified-keeps s raw made i im)
    ]

pub All-inside :
    {A : Type 0} (xs : List A) (is : List ℕ)
    → All (λ i. i < length xs) is
    → All (λ i. (a : A) × (get_elem? xs i ≡ some a)) is
All-inside xs [] h = tt
All-inside xs (i ∷ is) h = (inside xs i h.0, All-inside xs is h.1)

at_node : (total node : ℕ) (live : List ℕ) → In node live → All (λ i. i < total) live → node < total
at_node total node [] i h = absurd i
at_node total node (x ∷ xs) (inl e) h = subst (λ k. k < total) e h.0
at_node total node (x ∷ xs) (inr i) h = at_node total node xs i h.1

by_plain :
    (p : Placement) (o z : Option ℕ) (node : ℕ)
    → p ≢ rendezvous_zone_aware
    → o ≡ some node
    → by_scheme p o z ≡ some node
by_plain round_robin o z node ne e = e
by_plain rendezvous o z node ne e = e
by_plain rendezvous_zone_aware o z node ne e = absurd (ne refl)

-- Placement on live nodes, other than by zones, finds a place for every shard.
pub have-places :
    (m : Manifest) (live : List ℕ) (idx n : ℕ)
    → m.placement ≢ rendezvous_zone_aware
    → live ≢ []
    → IsSorted live
    → All (λ i. i < length m.nodes) live
    → HavePlaces m live idx n
unfolding place_shard
have-places m live idx n plain some_live sorted in_range i le lt =
    let key = shard_key m 0 0 (i % 2 ^ 32) in
    let (node, e, at) =
      place-total m.placement key (length m.nodes) live some_live sorted in_range in
    let (a, there) = inside m.nodes node (at_node (length m.nodes) node live at in_range) in
    (node, a, by_plain m.placement _ _ node plain e, at, there)
