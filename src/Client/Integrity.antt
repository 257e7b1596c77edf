-- ===== src/Client/Integrity.antt =====
-- The reads of crates/holofs-client/src/client.rs against nodes that answer anything.
use holofs.Prelude.{
  ℕ, zero, suc, ◌+◌, ◌<◌, ◌%◌, ◌^◌, ◌≡◌, inl, inr, refl, sym, ap, ◌∙◌, subst, Bool, true, false,
  Bool-cases, List, [], ◌∷◌, map, Option, none, some, In, All, length, get_elem?, list_eq,
  list_eq_sound, arith,
}
use holofs.Shard.{Shard}
use holofs.Merkle.{Hash, shard_hash}
use holofs.Manifest.{Manifest}
use holofs.Manifest.Place.{place_shard}
use holofs.Codec.Io.{Result, ok, err}
use holofs.Wire.Request as Req
use holofs.Wire.Request.{Request}
use holofs.Wire.Response as Resp
use holofs.Wire.Response.{Response}
use holofs.Client.{
  Outcome, done, failed, panic, Network, Address, M, bind, ◌>>=◌, ◌>>◌, assert, or_panic, or_io,
  rpc, ask, command,
}
use holofs.Client.Gather.{expect_shards, gather_from, contains, verified, send_shards}

pub bind-done :
    {W A B : Type 0} (r : Outcome A × W) (f : A → M W B) {b : B}
    → (bind r f).0 ≡ done b
    → (a : A) × (r.0 ≡ done a) × ((f a r.1).0 ≡ done b)
bind-done (done a, w) f h = (a, refl, h)
bind-done (failed e, w) f h = cc
bind-done (panic, w) f h = cc

pub bind-or_panic :
    {W A B : Type 0} (o : Option A) (f : A → M W B) (w : W) {b : B}
    → ((or_panic o >>= f) w).0 ≡ done b
    → (a : A) × (o ≡ some a) × ((f a w).0 ≡ done b)
bind-or_panic none f w h = cc
bind-or_panic (some a) f w h = (a, refl, h)

pub bind-assert :
    {W B : Type 0} (t : Bool) (k : M W B) (w : W) {b : B}
    → ((assert t >> k) w).0 ≡ done b
    → (t ≡ true) × ((k w).0 ≡ done b)
bind-assert true k w h = (refl, h)
bind-assert false k w h = cc

pub done_cancel : {A : Type 0} {x y : A} → done x ≡ done y → x ≡ y
done_cancel e = cc

-- The outcome is no panic.
abbrev pub IsSafe : {A : Type 0} → Outcome A → Type 0
IsSafe (done a) = Unit
IsSafe (failed e) = Unit
IsSafe panic = ⊥

-- The call never panics.
abbrev Safe : {W A : Type 0} → M W A → Type 0
Safe {W} m = (w : W) → IsSafe (m w).0

Safe-bind :
    {W A B : Type 0} (m : M W A) (f : A → M W B) → Safe m → ((a : A) → Safe (f a)) → Safe (m >>= f)
Safe-bind {W} {A} {B} m f h g w = then_safe (m w) (h w)
  where
    then_safe : (r : Outcome A × W) → IsSafe r.0 → IsSafe (bind r f).0
    then_safe (done a, w') hr = g a w'
    then_safe (failed e, w') hr = tt
    then_safe (panic, w') hr = hr

or_io-IsSafe : {W A : Type 0} (r : Result A × W) → IsSafe (or_io r).0
or_io-IsSafe (ok a, w) = tt
or_io-IsSafe (err e, w) = tt

pub inside :
    {A : Type 0} (xs : List A) (i : ℕ) → i < length xs → (a : A) × (get_elem? xs i ≡ some a)
inside [] i h = absurd (omega arith)
inside (x ∷ xs) zero h = (x, refl)
inside (x ∷ xs) (suc i) h = inside xs i (omega arith)

module _ (net : Network) where
  ask-Safe : (addr : Address) (req : Request) → Safe (ask net addr req)
  unfolding ask
  ask-Safe addr req w = or_io-IsSafe (rpc net addr req w)

  expect_shards-Safe : (r : Response) → Safe (expect_shards net r)
  unfolding expect_shards
  expect_shards-Safe Resp.pong w = tt
  expect_shards-Safe Resp.ack w = tt
  expect_shards-Safe (Resp.shards v) w = tt
  expect_shards-Safe (Resp.stat_resp n) w = tt
  expect_shards-Safe (Resp.audit_resp s) w = tt
  expect_shards-Safe (Resp.auth_challenge_ok s) w = tt
  expect_shards-Safe (Resp.error msg) w = tt

  -- Gathering a layer from nodes of the manifest never panics, whatever they answer.
  pub gather_from-Safe :
      (m : Manifest) (channel layer : ℕ) (live : List ℕ)
      → All (λ i. i < length m.nodes) live
      → (w : net.World) → IsSafe (gather_from net m channel layer live w).0
  unfolding gather_from
  gather_from-Safe m channel layer [] h w = tt
  gather_from-Safe m channel layer (node ∷ live) h w =
      let (addr, there) = inside m.nodes node h.0 in
      rw there (
        Safe-bind (ask net addr (Req.get m.object_id channel layer)) _ (ask-Safe addr _)
          (λ r. Safe-bind (expect_shards net r) _ (expect_shards-Safe r) (λ v.
            Safe-bind (gather_from net m channel layer live) _
              (gather_from-Safe m channel layer live h.1) (λ rest w'. tt)))
          w)

-- No shard that was received has the hash of another one that was made.
abbrev pub NoClash : List Shard → List Shard → Type 0
NoClash raw made = (s t : Shard) → In s raw → In t made → shard_hash s ≡ shard_hash t → s ≡ t

pub contains-In :
    (h : Hash) (made : List Shard)
    → contains (map shard_hash made) h ≡ true
    → (t : Shard) × In t made × (shard_hash t ≡ h)
unfolding contains
contains-In h [] e = cc
contains-In h (t ∷ made) e = elim (Bool-cases (list_eq (shard_hash t) h)) [
  | inl same ↦ (t, inl refl, list_eq_sound (shard_hash t) h same)
  | inr other ↦ let (u, at, e') = contains-In h made (rw other at e) in (u, inr at, e')
]

-- What passes the check against the hashes of a layer was made for it.
pub verified-made :
    (raw made : List Shard)
    → NoClash raw made
    → All (λ s. In s made) (verified (map shard_hash made) raw)
unfolding verified
verified-made [] made h = tt
verified-made (s ∷ raw) made h =
    let rest = verified-made raw made (λ u t hu ht e. h u t (inr hu) ht e) in
    elim (Bool-cases (contains (map shard_hash made) (shard_hash s))) [
      | inl known ↦
          let (t, at, e) = contains-In (shard_hash s) made known in
          let same = h s t (inl refl) at (sym e) in
          rw known (subst (λ u. In u made) (sym same) at, rest)
      | inr unknown ↦ rw unknown rest
    ]

module _ (net : Network) where
  -- The hashes that a put returns are those of the shards, in their order.
  pub send_shards-hashes :
      (m : Manifest) (live : List ℕ) (channel layer idx : ℕ) (shards : List Shard) (w : net.World)
      (hashes : List Hash)
      → (send_shards net m live channel layer idx shards w).0 ≡ done hashes
      → hashes ≡ map shard_hash shards
  unfolding send_shards
  send_shards-hashes m live channel layer idx [] w hashes e = sym (done_cancel e)
  send_shards-hashes m live channel layer idx (s ∷ shards) w hashes e =
      let (node, _, e1) = bind-or_panic (place_shard m channel layer (idx % 2 ^ 32) live) _ w e in
      let (addr, _, e2) = bind-or_panic (get_elem? m.nodes node) _ w e1 in
      let (_, _, e3) = bind-done (command net addr (Req.put m.object_id channel layer s) _) _ e2 in
      let (more, sent, e4) =
        bind-done (send_shards net m live channel layer (idx + 1) shards _) _ e3 in
      sym (done_cancel e4)
      ∙ ap (λ t. shard_hash s ∷ t)
          (send_shards-hashes m live channel layer (idx + 1) shards _ more sent)
