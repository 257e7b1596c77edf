-- ===== src/Client/AfterPut.antt =====
-- A put of one of the shards of crates/holofs-client/src/client.rs at a node that holds no others of the object.
use holofs.Prelude.{
  ℕ, ◌≡◌, inl, inr, refl, sym, ap, ◌∙◌, subst, Bool, true, false, ◌&&◌, not, Bool-cases, List,
  Option, none, some, some_cancel, In, list_eq_refl, list_eq_sound, ==_refl, if◌then◌else◌,
}
use holofs.Shard.{Shard}
use holofs.Merkle.{Hash, shard_hash}
use holofs.Storage.{Store, is_some, hash_keyed, put, get, get_by_hash, bucket}
use holofs.Storage.Filed.{IsFiled, UnderItsHash, bucket-IsBucket, put-IsFiled}
use holofs.Storage.HashMap.{All-find}
use holofs.Storage.View.{same_place, get_by_hash-put, put-added}
use holofs.Client.Integrity.{NoClash}
use holofs.Client.Ready.{layer_key, IsNode}

module _ (object_id : ℕ) (made : List Shard) (clear : NoClash made made) where
  abbrev key : holofs.Storage.Files.Key
  key = layer_key object_id

  -- What a put of one of the shards does to a node.
  pub record AfterPut (s : Shard) (st st' : Store) : Type 0 where
    pub is_node : IsNode object_id made st'
    pub there : get_by_hash key (shard_hash s) st' ≡ some s
    pub keeps :
        (h : Hash) (t : Shard) → get_by_hash key h st ≡ some t → get_by_hash key h st' ≡ some t

  under_its_hash :
      (h : Hash) (t : Shard) (st : Store)
      → IsNode object_id made st
      → get_by_hash key h st ≡ some t
      → h ≡ shard_hash t
  unfolding get_by_hash
  under_its_hash h t st node e =
      All-find UnderItsHash h t (bucket key st.shards)
        (bucket-IsBucket key st.shards node.filed.filed).1 e

  place_self : (h : Hash) → same_place key h key h ≡ true
  unfolding holofs.Storage.key_beq
  place_self h = rw (==_refl object_id) (list_eq_refl h)

  place_other : (g h : Hash) → same_place key g key h ≡ true → g ≡ h
  unfolding holofs.Storage.key_beq
  place_other g h e = list_eq_sound g h (rw (==_refl object_id) at e)

  no_fault : (b c : Bool) → (b && not (c && false)) ≡ b
  no_fault true true = refl
  no_fault true false = refl
  no_fault false c = refl

  absent_none : {A : Type 0} (o : Option A) → not (is_some o) ≡ true → o ≡ none
  absent_none none e = refl
  absent_none (some a) e = cc

  present_some : {A : Type 0} (o : Option A) → not (is_some o) ≡ false → (a : A) × (o ≡ some a)
  present_some none e = cc
  present_some (some a) e = (a, refl)

  -- A shard that is new to the node is added.
  after_added :
      (s : Shard) (st : Store)
      → IsNode object_id made st
      → In s made
      → IsFiled (put none key s st).0
      → (put none key s st).1 ≡ true
      → get_by_hash key (shard_hash s) st ≡ none
      → AfterPut s st (put none key s st).0
  after_added s st node i filed added new =
      let st' = (put none key s st).0 in
      let at : (h : Hash)
          → get_by_hash key h st'
            ≡ (if same_place key (shard_hash s) key h then some s else get_by_hash key h st) =
        λ h. get_by_hash-put none key key s h st ∙ rw added refl in
      record {
        is_node = record {
          filed = filed;
          only_made = λ h t e. elim (Bool-cases (same_place key (shard_hash s) key h)) [
            | inl same ↦
                let e' = some_cancel (sym (at h ∙ rw same refl) ∙ e) in subst (λ u. In u made) e' i
            | inr other ↦ node.only_made h t (sym (at h ∙ rw other refl) ∙ e)
          ];
        };
        there = at (shard_hash s) ∙ rw (place_self (shard_hash s)) refl;
        keeps = λ h t e. elim (Bool-cases (same_place key (shard_hash s) key h)) [
          | inl same ↦
              let eq = place_other (shard_hash s) h same in
              let bad = sym new ∙ ap (λ g. get_by_hash key g st) eq ∙ e in cc
          | inr other ↦ at h ∙ rw other e
        ];
      }

  -- A shard that the node has changes nothing.
  after_refused :
      (s t : Shard) (st : Store)
      → IsNode object_id made st
      → In s made
      → IsFiled (put none key s st).0
      → (put none key s st).1 ≡ false
      → get_by_hash key (shard_hash s) st ≡ some t
      → AfterPut s st (put none key s st).0
  after_refused s t st node i filed refused e =
      let st' = (put none key s st).0 in
      let same =
        clear t s (node.only_made (shard_hash s) t e) i
          (sym (under_its_hash (shard_hash s) t st node e)) in
      let at : (h : Hash) → get_by_hash key h st' ≡ get_by_hash key h st =
        λ h. get_by_hash-put none key key s h st ∙ rw refused refl in
      record {
        is_node = record {
          filed = filed;
          only_made = λ h u e'. node.only_made h u (sym (at h) ∙ e');
        };
        there = at (shard_hash s) ∙ e ∙ ap some same;
        keeps = λ h u e'. at h ∙ e';
      }

  pub after-put :
      (s : Shard) (st : Store)
      → IsNode object_id made st
      → In s made
      → AfterPut s st (put none key s st).0
  after-put s st node i =
      let filed = put-IsFiled none key s st node.filed in
      let flag =
        put-added none key s st
        ∙ no_fault (not (is_some (get_by_hash key (shard_hash s) st))) (is_some st.dir) in
      elim (Bool-cases (put none key s st).1) [
        | inl added ↦
            after_added s st node i filed added
              (absent_none (get_by_hash key (shard_hash s) st) (sym flag ∙ added))
        | inr refused ↦
            let (t, e) = present_some (get_by_hash key (shard_hash s) st) (sym flag ∙ refused) in
            after_refused s t st node i filed refused e
      ]
