-- ===== src/Storage/Mirror.antt =====
-- What ties the files of a node of crates/holofs-storage/src/node_service.rs to the shards that it holds, and the
-- steps that keep it.
use holofs.Prelude.{
  ℕ, ◌≡◌, ◌≢◌, ◌⊎◌, inl, inr, refl, sym, ap, ◌∙◌, subst, true, false, Bool-cases, List, Option,
  none, some, some_cancel, if◌then◌else◌,
}
use holofs.Shard.{Shard}
use holofs.Merkle.{Hash, shard_hash}
use holofs.Storage.HashMap.{find, beq_apart}
use holofs.Storage.Files.{
  Key, FilePath, path_keyed, path_beq, path_beq_iff, Disk, shard_path, tmp_path, file_bytes,
  is_shard_file,
}
use holofs.Storage.{key_keyed}
use holofs.Storage.Paths.{
  IsHash, shard_hash-IsHash, shard_path-injective, tmp_path-is_shard_file, tmp-apart,
}
use holofs.Storage.View.{same_place, same_place_sound, same_place_self}
use holofs.Storage.Crash.{Untouched, Written}
use holofs.Storage.RoundTrip.{Fits}
use holofs.Storage.Refines.{Contents}

not_both : {o : Option Shard} {t : Shard} → o ≡ none → o ≡ some t → ⊥
not_both a b = cc

-- The file of a stored shard.
pub record HasFile (c : Contents) (p : FilePath) (bytes : List ℕ) : Type 0 where
  pub k : Key
  pub h : Hash
  pub s : Shard
  pub stored : c k h ≡ some s
  pub path : p ≡ shard_path h
  pub contents : bytes ≡ file_bytes k s

-- The files of the disk are those of the stored shards; `home` is the one key under which a hash may stand.
pub record Mirrors (home : Hash → Key) (c : Contents) (d : Disk) : Type 0 where
  pub named : (k : Key) (h : Hash) (s : Shard) → c k h ≡ some s → h ≡ shard_hash s
  pub fits : (k : Key) (h : Hash) (s : Shard) → c k h ≡ some s → Fits k s
  pub homed : (k : Key) (h : Hash) (s : Shard) → c k h ≡ some s → home h ≡ k
  pub kept :
      (k : Key) (h : Hash) (s : Shard)
      → c k h ≡ some s
      → find (shard_path h) d ≡ some (file_bytes k s)
  pub no_more :
      (p : FilePath) (bytes : List ℕ)
      → is_shard_file p ≡ true
      → find p d ≡ some bytes
      → HasFile c p bytes

module _ (home : Hash → Key) (c c' : Contents) (d d' : Disk) (m : Mirrors home c d) where
  pub stored-IsHash : (k : Key) (h : Hash) (s : Shard) → c k h ≡ some s → IsHash h
  stored-IsHash k h s e = subst IsHash (sym (m.named k h s e)) (shard_hash-IsHash s)

  no_tmp : (p : FilePath) (h : Hash) → is_shard_file p ≡ true → p ≢ tmp_path h
  no_tmp p h named e = let away = tmp_path-is_shard_file h in let same = ap is_shard_file e in cc

  pub still_HasFile :
      (p : FilePath) (bytes : List ℕ) (old : HasFile c p bytes)
      → c' old.k old.h ≡ some old.s
      → HasFile c' p bytes
  still_HasFile p bytes old e = record {
    k = old.k;
    h = old.h;
    s = old.s;
    stored = e;
    path = old.path;
    contents = old.contents;
  }

  -- A write that fails changes nothing that counts.
  pub Untouched-Mirrors :
      (k : Key) (h : Hash) (s : Shard)
      → Untouched k h s d d'
      → ((j : Key) (g : Hash) → c' j g ≡ c j g)
      → Mirrors home c' d'
  Untouched-Mirrors k h s same view = record {
    named = λ j g t e. m.named j g t (sym (view j g) ∙ e);
    fits = λ j g t e. m.fits j g t (sym (view j g) ∙ e);
    homed = λ j g t e. m.homed j g t (sym (view j g) ∙ e);
    kept = λ j g t e.
        let e' = sym (view j g) ∙ e in
        same (shard_path g) (tmp-apart g h (stored-IsHash j g t e')) ∙ m.kept j g t e';
    no_more = λ p bytes is_named e.
        let old = m.no_more p bytes is_named (sym (same p (no_tmp p h is_named)) ∙ e) in
        still_HasFile p bytes old (view old.k old.h ∙ old.stored);
  }

  -- A new shard is written into its file.
  module _ (k : Key) (s : Shard) (fits : Fits k s) (here : home (shard_hash s) ≡ k)
      (absent : c k (shard_hash s) ≡ none) (written : Written k (shard_hash s) s d d')
      (view : (j : Key) (g : Hash)
        → c' j g ≡ (if same_place k (shard_hash s) j g then some s else c j g)) where
    abbrev h : Hash
    h = shard_hash s

    new_or_old :
        (j : Key) (g : Hash) (t : Shard)
        → c' j g ≡ some t
        → ((k ≡ j) × (h ≡ g) × (s ≡ t)) ⊎ ((c j g ≡ some t) × (h ≢ g))
    new_or_old j g t e = elim (Bool-cases (same_place k h j g)) [
      | inl at ↦
          let (a, b) = same_place_sound k j h g at in
          inl (a, b, some_cancel (sym (view j g ∙ rw at refl) ∙ e))
      | inr away ↦
          let e' = sym (view j g ∙ rw away refl) ∙ e in
          inr (
            e',
            λ same.
                let there : j ≡ k = sym (m.homed j g t e') ∙ ap home (sym same) ∙ here in
                not_both absent (ap (λ x. c x h) (sym there) ∙ ap (c j) same ∙ e'),
          )
    ]

    kept_after :
        (j : Key) (g : Hash) (t : Shard)
        → c' j g ≡ some t
        → find (shard_path g) d' ≡ some (file_bytes j t)
    kept_after j g t e = elim (new_or_old j g t e) [
      | inl (a, b, x) ↦
          let hash = subst IsHash b (shard_hash-IsHash s) in
          let self : path_beq (shard_path h) (shard_path g) ≡ true =
            (path_beq_iff (shard_path h) (shard_path g)).1 (ap shard_path b) in
          written (shard_path g) (tmp-apart g h hash) ∙ rw self (λ i. some (file_bytes (a i) (x i)))
      | inr (e', ne) ↦
          let hash = stored-IsHash j g t e' in
          let apart : path_beq (shard_path h) (shard_path g) ≡ false =
            beq_apart (shard_path h) (shard_path g)
              (λ p. ne (shard_path-injective h g (shard_hash-IsHash s) hash p)) in
          written (shard_path g) (tmp-apart g h hash) ∙ rw apart (m.kept j g t e')
    ]

    old_HasFile :
        (p : FilePath) (bytes : List ℕ)
        → path_beq (shard_path h) p ≡ false
        → HasFile c p bytes
        → HasFile c' p bytes
    old_HasFile p bytes other old =
        let away : same_place k h old.k old.h ≡ false =
          elim (Bool-cases (same_place k h old.k old.h)) [
            | inl t ↦
                let (a, b) = same_place_sound k old.k h old.h t in
                let bad =
                  sym ((path_beq_iff (shard_path h) p).1 (ap shard_path b ∙ sym old.path))
                  ∙ other in
                cc
            | inr f ↦ f
          ] in
        still_HasFile p bytes old (view old.k old.h ∙ rw away old.stored)

    no_more_after :
        (p : FilePath) (bytes : List ℕ)
        → is_shard_file p ≡ true
        → find p d' ≡ some bytes
        → HasFile c' p bytes
    no_more_after p bytes named e =
        let e1 = sym (written p (no_tmp p h named)) ∙ e in
        elim (Bool-cases (path_beq (shard_path h) p)) [
          | inl at ↦ record {
            k = k;
            h = h;
            s = s;
            stored = view k h ∙ rw (same_place_self k h) refl;
            path = sym ((path_beq_iff (shard_path h) p).0 at);
            contents = sym (some_cancel (rw at at e1));
          }
          | inr other ↦ old_HasFile p bytes other (m.no_more p bytes named (rw other at e1))
        ]

    pub Written-Mirrors : Mirrors home c' d'
    Written-Mirrors = record {
      named = λ j g t e. elim (new_or_old j g t e) [
        | inl (a, b, x) ↦ sym b ∙ ap shard_hash x
        | inr (e', ne) ↦ m.named j g t e'
      ];
      fits = λ j g t e. elim (new_or_old j g t e) [
        | inl (a, b, x) ↦ subst (λ (r : Key × Shard). Fits r.0 r.1) (λ i. (a i, x i)) fits
        | inr (e', ne) ↦ m.fits j g t e'
      ];
      homed = λ j g t e. elim (new_or_old j g t e) [
        | inl (a, b, x) ↦ ap home (sym b) ∙ here ∙ a
        | inr (e', ne) ↦ m.homed j g t e'
      ];
      kept = kept_after;
      no_more = no_more_after;
    }
