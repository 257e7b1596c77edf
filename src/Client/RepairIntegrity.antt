-- ===== src/Client/RepairIntegrity.antt =====
-- What `repair_node` of crates/holofs-client/src/client.rs writes into the manifest, against nodes that answer anything.
use holofs.Prelude.{
  ℕ, zero, suc, ◌≡◌, inl, inr, refl, ap, ◌∙◌, subst, Bool-cases, List, [], ◌∷◌, All, length,
  get_elem?, take, leb,
}
use holofs.Shard.{Shard}
use holofs.Gf
use holofs.Rng.{Rng}
use holofs.Codec.Io.{Result, ok, err}
use holofs.Merkle.{Hash}
use holofs.Manifest.{Manifest}
use holofs.Rlnc.Encode.{default_k}
use holofs.Rlnc.Linear.{IsByte}
use holofs.Rlnc.Consistent.{Consistent}
use holofs.Repair.{mix_donors}
use holofs.Repair.Consistent.{mix_donors-Consistent}
use holofs.Wire.Request as Req
use holofs.Wire.Request.{Request}
use holofs.Wire.Response as Resp
use holofs.Wire.Response.{Response}
use holofs.Client.{done, Network, Address, or_io, rpc, ask, command}
use holofs.Client.Gather.{expect_shards, expected_hashes}
use holofs.Client.Integrity.{bind-done, bind-or_panic, bind-assert, done_cancel}
use holofs.Client.Repair.{
  Progress, take_donors, other_nodes, donors_from, put_fresh, mix_layer, fill_layer, repair_layers,
  grid, contains_node, repair_node, no_stats, needed,
}
use holofs.Client.GoodHashes.{
  first_ones, All-at, at-All, IsGoodHash, AreGood, IsClear, take_donors-Good, push_hashes-AreGood,
}

or_io-ok : {W A : Type 0} (r : Result A × W) (a : A) → (or_io r).0 ≡ done a → r.0 ≡ ok a
or_io-ok (ok b, w) a e = ap ok (done_cancel e)
or_io-ok (err x, w) a e = cc

module _ (Good : ℕ → ℕ → Shard → Type 0) where
  module _ (net : Network)
      (clear : (addr : Address) (req : Request) (w : net.World) (v : List Shard)
        → (rpc net addr req w).0 ≡ ok (Resp.shards v)
        → All (IsClear Good) v)
      (mixes : (channel layer : ℕ) (donors : List Shard) (need : ℕ) (rng : Rng)
        → All (Good channel layer) donors
        → All (Good channel layer) (mix_donors Gf.new donors need rng).1) where
    expect_shards-done :
        (r : Response) (w : net.World) (v : List Shard)
        → (expect_shards net r w).0 ≡ done v
        → r ≡ Resp.shards v
    unfolding expect_shards
    expect_shards-done Resp.pong w v e = cc
    expect_shards-done Resp.ack w v e = cc
    expect_shards-done (Resp.shards u) w v e = ap Resp.shards (done_cancel e)
    expect_shards-done (Resp.stat_resp n) w v e = cc
    expect_shards-done (Resp.audit_resp s) w v e = cc
    expect_shards-done (Resp.auth_challenge_ok s) w v e = cc
    expect_shards-done (Resp.error msg) w v e = cc

    received-IsClear :
        (addr : Address) (req : Request) (w w' : net.World) (r : Response) (v : List Shard)
        → (ask net addr req w).0 ≡ done r
        → (expect_shards net r w').0 ≡ done v
        → All (IsClear Good) v
    unfolding ask
    received-IsClear addr req w w' r v asked e =
        clear addr req w v
          (or_io-ok (rpc net addr req w) r asked ∙ ap ok (expect_shards-done r w' v e))

    donors_from-Good :
        (m : Manifest) (channel layer d : ℕ) (hs : List Hash) (nodes : List ℕ)
        (donors ds : List Shard) (w : net.World)
        → All (IsGoodHash Good channel layer) hs
        → All (Good channel layer) donors
        → (donors_from net m channel layer hs d nodes donors w).0 ≡ done ds
        → All (Good channel layer) ds
    unfolding donors_from
    donors_from-Good m c l d hs [] donors ds w good h e = subst (All (Good c l)) (done_cancel e) h
    donors_from-Good m c l d hs (node ∷ nodes) donors ds w good h e =
        let (addr, _, e1) = bind-or_panic (get_elem? m.nodes node) _ w e in
        let (r, asked, e2) = bind-done (ask net addr (Req.get m.object_id c l) w) _ e1 in
        let (v, got, e3) = bind-done (expect_shards net r _) _ e2 in
        let more = take_donors hs d donors v in
        let all =
          take_donors-Good Good c l d hs donors v good
            (received-IsClear addr (Req.get m.object_id c l) w _ r v asked got) h in
        elim (Bool-cases (leb d (length more))) [
          | inl full ↦ subst (All (Good c l)) (done_cancel (rw full at e3)) all
          | inr short ↦ donors_from-Good m c l d hs nodes more ds _ good all (rw short at e3)
        ]

    put_fresh-IsGoodHash :
        (addr : Address) (object_id channel layer : ℕ) (fresh : List Shard) (hs : List Hash)
        (w : net.World)
        → All (Good channel layer) fresh
        → (put_fresh net addr object_id channel layer fresh w).0 ≡ done hs
        → All (IsGoodHash Good channel layer) hs
    unfolding put_fresh
    put_fresh-IsGoodHash addr o c l [] hs w h e =
        subst (All (IsGoodHash Good c l)) (done_cancel e) tt
    put_fresh-IsGoodHash addr o c l (s ∷ fresh) hs w h e =
        let (_, _, e1) = bind-done (command net addr (Req.put o c l s) w) _ e in
        let (more, sent, e2) = bind-done (put_fresh net addr o c l fresh _) _ e1 in
        subst (All (IsGoodHash Good c l)) (done_cancel e2)
          ((s, h.0, refl), put_fresh-IsGoodHash addr o c l fresh more _ h.1 sent)

    mix_layer-AreGood :
        (addr : Address) (d channel layer need : ℕ) (donors : List Shard) (p p' : Progress)
        (w : net.World)
        → AreGood Good p.manifest
        → All (Good channel layer) donors
        → (mix_layer net addr d channel layer need donors p w).0 ≡ done p'
        → AreGood Good p'.manifest
    unfolding mix_layer
    mix_layer-AreGood addr d c l need [] p p' w good h e =
        subst (λ (x : Progress). AreGood Good x.manifest) (done_cancel e) good
    mix_layer-AreGood addr d c l need (donor ∷ others) p p' w good h e =
        let donors = take d (donor ∷ others) in
        let (slen, _, e1) = bind-or_panic (get_elem? p.manifest.sym_len l) _ w e in
        let fresh = (mix_donors Gf.new donors need p.rng).1 in
        let (hs, sent, e2) = bind-done (put_fresh net addr p.manifest.object_id c l fresh w) _ e1 in
        let all = mixes c l donors need p.rng (first_ones (Good c l) d (donor ∷ others) h) in
        subst (λ (x : Progress). AreGood Good x.manifest) (done_cancel e2)
          (push_hashes-AreGood Good p.manifest c l hs good
            (put_fresh-IsGoodHash addr p.manifest.object_id c l fresh hs w all sent))

    fill_layer-AreGood :
        (addr : Address) (live : List ℕ) (replacement d channel layer need : ℕ) (p p' : Progress)
        (w : net.World)
        → AreGood Good p.manifest
        → (fill_layer net addr live replacement d channel layer need p w).0 ≡ done p'
        → AreGood Good p'.manifest
    unfolding fill_layer
    fill_layer-AreGood addr live r d c l zero p p' w good e =
        subst (λ (x : Progress). AreGood Good x.manifest) (done_cancel e) good
    fill_layer-AreGood addr live r d c l (suc n) p p' w good e =
        let (hs, at, e1) = bind-or_panic (expected_hashes p.manifest c l) _ w e in
        let (donors, got, e2) =
          bind-done (donors_from net p.manifest c l hs d (other_nodes r live) [] w) _ e1 in
        mix_layer-AreGood addr d c l (suc n) donors p p' _ good
          (donors_from-Good p.manifest c l d hs (other_nodes r live) [] donors w (good c l hs at) tt
            got)
          e2

    repair_layers-AreGood :
        (addr : Address) (live : List ℕ) (replacement d : ℕ) (layers : List (ℕ × ℕ))
        (p p' : Progress) (w : net.World)
        → AreGood Good p.manifest
        → (repair_layers net addr live replacement d layers p w).0 ≡ done p'
        → AreGood Good p'.manifest
    unfolding repair_layers
    repair_layers-AreGood addr live r d [] p p' w good e =
        subst (λ (x : Progress). AreGood Good x.manifest) (done_cancel e) good
    repair_layers-AreGood addr live r d ((c, l) ∷ rest) p p' w good e =
        let (n, _, e1) = bind-or_panic (get_elem? p.manifest.n_per_layer l) _ w e in
        let (need, _, e2) = bind-or_panic (needed p.manifest live c l r 0 n) _ w e1 in
        let (q, filled, e3) = bind-done (fill_layer net addr live r d c l need p w) _ e2 in
        repair_layers-AreGood addr live r d rest q p' _
          (fill_layer-AreGood addr live r d c l need p q w good filled) e3

    repair_node-AreGood :
        (rng : Rng) (m : Manifest) (live : List ℕ) (replacement d : ℕ) (p : Progress)
        (w : net.World)
        → AreGood Good m
        → (repair_node net rng m live replacement d w).0 ≡ done p
        → AreGood Good p.manifest
    unfolding repair_node expected_hashes
    repair_node-AreGood rng m live r d p w good e =
        let (_, e1) = bind-assert (contains_node live r) _ w e in
        let (addr, _, e2) = bind-or_panic (get_elem? m.nodes r) _ w e1 in
        let (_, _, e3) = bind-done (command net addr (Req.purge m.object_id) w) _ e2 in
        let start : Progress = record { manifest = m; rng = rng; stats = no_stats } in
        let (q, done_layers, e4) =
          bind-done (repair_layers net addr live r d (grid 0 m.channels m.nlayers) start _) _ e3 in
        let all =
          repair_layers-AreGood addr live r d (grid 0 m.channels m.nlayers) start q _ good
            done_layers in
        subst (λ (x : Progress). AreGood Good x.manifest) (done_cancel e4) all

-- A shard of the chunks whose bytes in column `j` of a layer are `chunks channel layer j`, of `symbol_len channel
-- layer` bytes each: it is the combination of them that its coefficients say.
abbrev pub IsCombination : (ℕ → ℕ → ℕ) → (ℕ → ℕ → ℕ → List ℕ) → ℕ → ℕ → Shard → Type 0
IsCombination symbol_len chunks channel layer s =
    (j : ℕ) → Consistent default_k (symbol_len channel layer) (chunks channel layer j) j s

-- Repair keeps the manifest honest against any nodes: if every hash in it is that of a combination of the source
-- chunks, so is every hash in the manifest that a repair returns, the fresh shards included. Of the network it
-- asks only that it never delivers a shard that is no combination and has the hash of one that is. The chunks
-- are of bytes.
pub repair_node-IsCombination :
    (net : Network) (symbol_len : ℕ → ℕ → ℕ) (chunks : ℕ → ℕ → ℕ → List ℕ) (rng : Rng)
    (m : Manifest) (live : List ℕ) (replacement d : ℕ) (p : Progress) (w : net.World)
    → ((addr : Address) (req : Request) (w : net.World) (v : List Shard)
        → (rpc net addr req w).0 ≡ ok (Resp.shards v)
        → All (IsClear (IsCombination symbol_len chunks)) v)
    → ((channel layer j : ℕ) → All IsByte (chunks channel layer j))
    → AreGood (IsCombination symbol_len chunks) m
    → (repair_node net rng m live replacement d w).0 ≡ done p
    → AreGood (IsCombination symbol_len chunks) p.manifest
repair_node-IsCombination net symbol_len chunks rng m live replacement d p w clear isbyte good e =
    let combines : (c l : ℕ) → ℕ → Shard → Type 0 =
      λ c l j s. Consistent default_k (symbol_len c l) (chunks c l j) j s in
    repair_node-AreGood (IsCombination symbol_len chunks) net clear
      (λ c l donors need g h. at-All (combines c l) (mix_donors Gf.new donors need g).1 (λ j.
        (mix_donors-Consistent (symbol_len c l) (chunks c l j) (isbyte c l j) j donors need g
          (All-at (combines c l) donors h j)).0))
      rng m live replacement d p w good e
