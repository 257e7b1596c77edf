-- ===== src/Storage/Refines.antt =====
-- A specification of the node of crates/holofs-storage/src/node_service.rs: a partial map from keys and hashes to
-- shards. The store refines it.
use holofs.Prelude.{
  ℕ, ◌≡◌, ◌↔◌, inl, inr, true, false, refl, sym, ap, ◌∙◌, subst, Bool, ◌&&◌, not, Option-cases,
  List, [], ◌∷◌, Option, none, some, In, ◌==◌, if◌then◌else◌, Bool-cases,
}
use holofs.Shard.{Shard}
use holofs.Wire.Request as Req
use holofs.Wire.Request.{Request}
use holofs.Wire.Response as Resp
use holofs.Wire.Response.{Response}
use holofs.Merkle.{Hash, shard_hash}
use holofs.Storage.HashMap.{find, All-find}
use holofs.Storage.Files.{Key, Disk}
use holofs.Storage.{hash_keyed, Store, bucket, is_some, finish_put, put, get_by_hash, purge}
use holofs.Storage.Handler.{Schedule, handle_request, handle_all}
use holofs.Storage.Filed.{UnderItsHash, IsFiled, bucket-IsBucket, handle_request-IsFiled}
use holofs.Storage.View.{same_place, get_by_hash-put, put-added, get_by_hash-purge, In-get}

abbrev pub Contents : Type 0
Contents = Key → Hash → Option Shard

abbrev pub contents : Store → Contents
contents st k h = get_by_hash k h st

abbrev pub Agree : Contents → Contents → Type 0
Agree c c' = (k : Key) (h : Hash) → c' k h ≡ c k h

abbrev put_key : ℕ → ℕ → ℕ → Key
put_key o c l = (o, c, l)

-- What a node that signs with `sign` may do with a request: the contents before, the reply, the contents
-- after. The file system is `healthy` if it does what it is asked to.
abbrev pub Spec : (List ℕ → List ℕ) → Bool → Contents → Request → Response → Contents → Type 0
Spec sign healthy c Req.ping r c' = (r ≡ Resp.pong) × Agree c c'
Spec sign healthy c (Req.put object_id channel layer s) r c' =
    let key = put_key object_id channel layer in
    (r ≡ Resp.ack)
    × ((k : Key) (h : Hash)
        → c' k h ≡ (
            if (not (is_some (c key (shard_hash s))) && healthy)
              && same_place key (shard_hash s) k h
            then some s
            else c k h))
Spec sign healthy c (Req.get object_id channel layer) r c' =
    ((ss : List Shard) × (r ≡ Resp.shards ss)
      × ((s : Shard) → In s ss ↔ ((h : Hash) × (c (put_key object_id channel layer) h ≡ some s))))
    × Agree c c'
Spec sign healthy c (Req.purge object_id) r c' =
    (r ≡ Resp.ack) × ((k : Key) (h : Hash) → c' k h ≡ (if k.0 == object_id then none else c k h))
Spec sign healthy c Req.stat r c' = ((n : ℕ) × (r ≡ Resp.stat_resp n)) × Agree c c'
Spec sign healthy c (Req.audit object_id channel layer h) r c' =
    (r ≡ Resp.audit_resp (c (put_key object_id channel layer) h)) × Agree c c'
Spec sign healthy c (Req.auth_challenge nonce) r c' =
    (r ≡ Resp.auth_challenge_ok (sign nonce)) × Agree c c'

abbrev pub healthy_dir : Bool → Option ℕ → Bool
healthy_dir persistent fault = not (persistent && is_some fault)

-- The same of a schedule, for a node that is `persistent` or not.
abbrev pub SpecAll :
    (List ℕ → List ℕ) → Bool → Contents → Schedule → List Response → Contents → Type 0
SpecAll sign persistent c [] rs c' = (rs ≡ []) × Agree c c'
SpecAll sign persistent c (q ∷ qs) [] c' = ⊥
SpecAll sign persistent c ((fault, q) ∷ qs) (r ∷ rs) c' =
    (m : Contents) × Spec sign (healthy_dir persistent fault) c q r m
    × SpecAll sign persistent m qs rs c'

module _ (sign : List ℕ → List ℕ) where
  handle_request-Spec :
      (fault : Option ℕ) (req : Request) (st : Store)
      → IsFiled st
      → let (st', r) = handle_request sign fault req st in
        Spec sign (healthy_dir (is_some st.dir) fault) (contents st) req r (contents st')
  unfolding handle_request
  handle_request-Spec fault Req.ping st f = (refl, λ k h. refl)
  handle_request-Spec fault (Req.put o c l s) st f = (
    refl,
    λ k h.
        get_by_hash-put fault (o, c, l) k s h st
        ∙ ap
            (λ (added : Bool).
              if added && same_place (o, c, l) (shard_hash s) k h
              then some s
              else get_by_hash k h st)
            (put-added fault (o, c, l) s st),
  )
  handle_request-Spec fault (Req.get o c l) st f =
      ((_, refl, λ s. In-get (o, c, l) s st f), λ k h. refl)
  handle_request-Spec fault (Req.purge o) st f = (refl, λ k h. get_by_hash-purge o k h st)
  handle_request-Spec fault Req.stat st f = ((_, refl), λ k h. refl)
  handle_request-Spec fault (Req.audit o c l h) st f = (refl, λ k h. refl)
  handle_request-Spec fault (Req.auth_challenge n) st f = (refl, λ k h. refl)

finish_put-persistent :
    (k : Key) (h : Hash) (s : Shard) (st : Store) (r : Disk × Bool)
    → is_some (finish_put k h s st r).0.dir ≡ true
unfolding finish_put
finish_put-persistent k h s st (d, true) = refl
finish_put-persistent k h s st (d, false) = refl

put-persistent :
    (fault : Option ℕ) (k : Key) (s : Shard) (st : Store)
    → is_some (put fault k s st).0.dir ≡ is_some st.dir
unfolding put
put-persistent fault k s st =
    elim (Bool-cases (is_some (find (shard_hash s) (bucket k st.shards)))) [
      | inl there ↦ rw there refl
      | inr absent ↦ rw absent (elim (Option-cases st.dir) [
        | inl memory ↦ rw (memory, put) refl
        | inr (d, disk) ↦ rw (disk, put) (finish_put-persistent k (shard_hash s) s st _)
      ])
    ]

module _ (sign : List ℕ → List ℕ) where
  handle_request-persistent :
      (fault : Option ℕ) (req : Request) (st : Store)
      → is_some (handle_request sign fault req st).0.dir ≡ is_some st.dir
  unfolding handle_request purge
  handle_request-persistent fault Req.ping st = refl
  handle_request-persistent fault (Req.put o c l s) st = put-persistent fault (o, c, l) s st
  handle_request-persistent fault (Req.get o c l) st = refl
  handle_request-persistent fault (Req.purge o) st = elim (Option-cases st.dir) [
    | inl memory ↦ rw (memory, purge) refl
    | inr (d, disk) ↦ rw (disk, purge) refl
  ]
  handle_request-persistent fault Req.stat st = refl
  handle_request-persistent fault (Req.audit o c l h) st = refl
  handle_request-persistent fault (Req.auth_challenge n) st = refl

  handle_all-IsFiled :
      (reqs : Schedule) (st : Store) → IsFiled st → IsFiled (handle_all sign reqs st).0
  unfolding handle_all
  handle_all-IsFiled [] st f = f
  handle_all-IsFiled ((fault, req) ∷ reqs) st f =
      handle_all-IsFiled reqs _ (handle_request-IsFiled sign fault req st f)

  -- Refinement: from any store in which each shard is filed once, under its own hash, as in a new store and in
  -- a directory that was opened, the node answers any requests in any order as the partial map does: a put
  -- adds the shard unless its hash is there or the file system of a persistent node fails, a get returns
  -- exactly the shards under the key, a purge removes exactly those of the object, an audit returns what is
  -- under the key and hash, and nothing else changes. Which number of shards is reported is left open.
  pub handle_all-SpecAll :
      (reqs : Schedule) (st : Store)
      → IsFiled st
      → let (st', resps) = handle_all sign reqs st in
        SpecAll sign (is_some st.dir) (contents st) reqs resps (contents st')
  unfolding handle_all
  handle_all-SpecAll [] st f = (refl, λ k h. refl)
  handle_all-SpecAll ((fault, req) ∷ reqs) st f =
      let st' = (handle_request sign fault req st).0 in
      let same = handle_request-persistent fault req st in
      (
        contents st',
        handle_request-Spec sign fault req st f,
        subst
            (λ p.
              SpecAll sign p (contents st') reqs (handle_all sign reqs st').1
                (contents (handle_all sign reqs st').0))
            same (handle_all-SpecAll reqs st' (handle_request-IsFiled sign fault req st f)),
      )

  -- Audits are sound: however a node came to its store by requests, faults of the file system included, a
  -- shard that it sends in reply to an audit has the hash that was asked for, provided that each shard was
  -- filed once and under its own hash at the start.
  pub handle_all-audit :
      (reqs : Schedule) (st : Store) (fault : Option ℕ) (o c l : ℕ) (h : Hash) (s : Shard)
      → IsFiled st
      → (handle_request sign fault (Req.audit o c l h) (handle_all sign reqs st).0).1
        ≡ Resp.audit_resp (some s)
      → shard_hash s ≡ h
  unfolding handle_request get_by_hash
  handle_all-audit reqs st fault o c l h s f e =
      let st' = (handle_all sign reqs st).0 in
      let f' = handle_all-IsFiled reqs st f in
      let b = bucket (put_key o c l) st'.shards in
      sym (
        All-find UnderItsHash h s b (bucket-IsBucket (put_key o c l) st'.shards f'.filed).1
          (audited e))
    where
      audited : {x y : Option Shard} → Resp.audit_resp x ≡ Resp.audit_resp y → x ≡ y
      audited e = cc
