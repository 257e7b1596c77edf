-- ===== src/Catalog/NewNames.antt =====
-- The names that `synthesize_missing_directories` of crates/holofs-model/src/fs.rs inserts are new, and no two of them
-- are the same.
use Prim.Native.Nat.{Ordering}
use holofs.Prelude.{
  ◌+◌, ◌≡◌, ◌⊎◌, inl, inr, refl, sym, ap, ◌∙◌, subst, true, false, Bool-cases, List, [], ◌∷◌, none,
  In, All, length, list_eq, list_eq_refl, list_eq_sound, arith,
}
use holofs.Manifest.{Manifest}
use holofs.Catalog.{Entry, compare_names, get, insert}
use holofs.Catalog.Entries.{compare_names-eq, compare_names_refl, Ordering-cases, get-insert}
use holofs.Catalog.Order.{compare_names-lt, compare_names_trans}
use holofs.Catalog.Directories.{insert_name, sort_names, dedup_names, insert_markers}
use holofs.Catalog.Ancestry.{Name, marker}

abbrev Lt : Name → Name → Type 0
Lt x y = compare_names x y ≡ Ordering.lt

abbrev Le : Name → Name → Type 0
Le x y = Lt x y ⊎ (x ≡ y)

Le-trans : (x y z : Name) → Le x y → Le y z → Le x z
Le-trans x y z (inl a) (inl b) = inl (compare_names_trans x y z a b)
Le-trans x y z (inl a) (inr b) = inl (subst (Lt x) b a)
Le-trans x y z (inr a) b = subst (λ w. Le w z) (sym a) b

Lt-Le : (x y z : Name) → Lt x y → Le y z → Lt x z
Lt-Le x y z a (inl b) = compare_names_trans x y z a b
Lt-Le x y z a (inr b) = subst (Lt x) b a

All-step : (P Q : Name → Type 0) (ys : List Name) → ((y : Name) → P y → Q y) → All P ys → All Q ys
All-step P Q [] f h = tt
All-step P Q (y ∷ ys) f h = (f y h.0, All-step P Q ys f h.1)

abbrev pub Ascending : List Name → Type 0
Ascending [] = Unit
Ascending (x ∷ xs) = All (Le x) xs × Ascending xs

abbrev pub Strict : List Name → Type 0
Strict [] = Unit
Strict (x ∷ xs) = All (Lt x) xs × Strict xs

All-insert_name :
    (P : Name → Type 0) (x : Name) (ys : List Name) → P x → All P ys → All P (insert_name x ys)
unfolding insert_name
All-insert_name P x [] px h = (px, tt)
All-insert_name P x (y ∷ ys) px h = elim (Ordering-cases (compare_names x y)) [
  | inl lt ↦ rw (lt, insert_name) (px, h)
  | inr (inl eq) ↦ rw (eq, insert_name) (px, h)
  | inr (inr gt) ↦ rw (gt, insert_name) (h.0, All-insert_name P x ys px h.1)
]

insert_name-Ascending : (x : Name) (ys : List Name) → Ascending ys → Ascending (insert_name x ys)
unfolding insert_name
insert_name-Ascending x [] h = (tt, tt)
insert_name-Ascending x (y ∷ ys) h = elim (Ordering-cases (compare_names x y)) [
  | inl lt ↦
      rw (lt, insert_name)
        ((inl lt, All-step (Le y) (Le x) ys (λ z. Le-trans x y z (inl lt)) h.0), h)
  | inr (inl eq) ↦
      let same = compare_names-eq x y eq in
      rw (eq, insert_name)
        ((inr same, All-step (Le y) (Le x) ys (λ z. Le-trans x y z (inr same)) h.0), h)
  | inr (inr gt) ↦
      rw (gt, insert_name)
        (
          All-insert_name (Le y) x ys (inl (compare_names-lt x y gt)) h.0,
          insert_name-Ascending x ys h.1,
        )
]

pub sort-Ascending : (xs : List Name) → Ascending (sort_names xs)
unfolding sort_names
sort-Ascending [] = tt
sort-Ascending (x ∷ xs) = insert_name-Ascending x (sort_names xs) (sort-Ascending xs)

All-dedup_names : (P : Name → Type 0) (xs : List Name) → All P xs → All P (dedup_names xs)
unfolding dedup_names
All-dedup_names P [] h = h
All-dedup_names P (x ∷ []) h = h
All-dedup_names P (x ∷ y ∷ ys) h = elim (Bool-cases (list_eq x y)) [
  | inl t ↦ rw t (All-dedup_names P (y ∷ ys) h.1)
  | inr f ↦ rw f (h.0, All-dedup_names P (y ∷ ys) h.1)
]

different : (x y : Name) → list_eq x y ≡ false → Le x y → Lt x y
different x y f (inl lt) = lt
different x y f (inr same) = let bad = sym f ∙ ap (list_eq x) (sym same) ∙ list_eq_refl x in cc

pub dedup-Strict : (xs : List Name) → Ascending xs → Strict (dedup_names xs)
unfolding dedup_names
dedup-Strict [] h = tt
dedup-Strict (x ∷ []) h = (tt, tt)
dedup-Strict (x ∷ y ∷ ys) h = elim (Bool-cases (list_eq x y)) [
  | inl t ↦ rw t (dedup-Strict (y ∷ ys) h.1)
  | inr f ↦
      let lt = different x y f h.0.0 in
      rw f (
        All-dedup_names (Lt x) (y ∷ ys) (lt, All-step (Le y) (Lt x) ys (λ z. Lt-Le x y z lt) h.1.0),
        dedup-Strict (y ∷ ys) h.1,
      )
]

length-insert :
    (name : Name) (m : Manifest) (es : List Entry)
    → get name es ≡ none
    → length (insert name m es) ≡ length es + 1
unfolding get insert
length-insert name m [] absent = refl
length-insert name m ((key, n) ∷ es) absent = elim (Ordering-cases (compare_names name key)) [
  | inl lt ↦ rw (lt, insert) (omega arith)
  | inr (inl eq) ↦
      let same =
        subst (λ k. list_eq name k ≡ true) (compare_names-eq name key eq) (list_eq_refl name) in
      let bad = rw same at absent in cc
  | inr (inr gt) ↦ elim (Bool-cases (list_eq name key)) [
    | inl t ↦ let bad = rw t at absent in cc
    | inr f ↦
        let ih = length-insert name m es (rw f at absent) in rw (gt, insert) (omega (arith, ih))
  ]
]

All-In : (P : Name → Type 0) (xs : List Name) → All P xs → (p : Name) → In p xs → P p
All-In P [] h p i = absurd i
All-In P (x ∷ xs) h p (inl e) = subst P e h.0
All-In P (x ∷ xs) h p (inr i) = All-In P xs h.1 p i

pub length-insert_markers :
    (ws : List Name) (es : List Entry)
    → Strict ws
    → ((p : Name) → In p ws → get p es ≡ none)
    → length (insert_markers ws es) ≡ length es + length ws
unfolding insert_markers
length-insert_markers [] es strict absent = omega arith
length-insert_markers (w ∷ ws) es strict absent =
    let ih = length-insert_markers ws (insert w (marker w) es) strict.1 (λ p i.
      let lt = All-In (Lt w) ws strict.0 p i in
      get-insert w p (marker w) es ∙ elim (Bool-cases (list_eq p w)) [
        | inl t ↦
            let same = subst (Lt w) (list_eq_sound p w t) lt in
            let bad = sym same ∙ compare_names_refl w in cc
        | inr f ↦ rw f (absent p (inr i))
      ]) in
    omega (arith, ih, length-insert w (marker w) es (absent w (inl refl)))
