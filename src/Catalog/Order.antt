-- ===== src/Catalog/Order.antt =====
-- The order of the names in the catalog of crates/holofs-model/src/fs.rs under its insertion and removal.
use Prim.Native.Nat.{Ordering}
use holofs.Prelude.{
  ℕ, ◌≡◌, ◌≢◌, inl, inr, refl, sym, ◌∙◌, subst, false, List, [], ◌∷◌, none, some, list_eq,
  list_eq_refl, list_eq_sound, if◌then◌else◌, arith, Bool-cases,
}
use holofs.Manifest.{Manifest}
use holofs.Catalog.{Entry, compare_names, insert, get, remove}
use holofs.Catalog.Entries.{Before, Sorted, compare_names_refl, Ordering-cases, apart}

pub compare_names-lt :
    (xs ys : List ℕ) → compare_names xs ys ≡ Ordering.gt → compare_names ys xs ≡ Ordering.lt
unfolding compare_names
compare_names-lt [] [] h = ground arith
compare_names-lt [] (y ∷ ys) h = ground arith
compare_names-lt (x ∷ xs) [] h = refl
compare_names-lt (x ∷ xs) (y ∷ ys) h = ground (arith, compare_names-lt xs ys)

pub compare_names_trans :
    (xs ys zs : List ℕ)
    → compare_names xs ys ≡ Ordering.lt
    → compare_names ys zs ≡ Ordering.lt
    → compare_names xs zs ≡ Ordering.lt
unfolding compare_names
compare_names_trans [] [] zs h k = ground arith
compare_names_trans [] (y ∷ ys) [] h k = ground arith
compare_names_trans [] (y ∷ ys) (z ∷ zs) h k = refl
compare_names_trans (x ∷ xs) [] zs h k = ground arith
compare_names_trans (x ∷ xs) (y ∷ ys) [] h k = ground arith
compare_names_trans (x ∷ xs) (y ∷ ys) (z ∷ zs) h k = ground (arith, compare_names_trans xs ys zs)

Before-trans :
    (name key : List ℕ) (es : List Entry)
    → compare_names name key ≡ Ordering.lt
    → Before key es
    → Before name es
Before-trans name key [] h b = tt
Before-trans name key (e ∷ es) h b =
    (compare_names_trans name key e.0 h b.0, Before-trans name key es h b.1)

Before-insert :
    (key name : List ℕ) (m : Manifest) (es : List Entry)
    → compare_names key name ≡ Ordering.lt
    → Before key es
    → Before key (insert name m es)
unfolding insert
Before-insert key name m [] h b = (h, tt)
Before-insert key name m ((k, n) ∷ es) h b = elim (Ordering-cases (compare_names name k)) [
  | inl lt ↦ rw (lt, insert) (h, b)
  | inr (inl eq) ↦ rw (eq, insert) (b.0, b.1)
  | inr (inr gt) ↦ rw (gt, insert) (b.0, Before-insert key name m es h b.1)
]

-- An insertion keeps the entries in the strict order of their names, so that no name stands twice.
insert-Sorted :
    (name : List ℕ) (m : Manifest) (entries : List Entry)
    → Sorted entries
    → Sorted (insert name m entries)
unfolding insert
insert-Sorted name m [] s = (tt, tt)
insert-Sorted name m ((key, n) ∷ es) s = elim (Ordering-cases (compare_names name key)) [
  | inl lt ↦ rw (lt, insert) ((lt, Before-trans name key es lt s.0), s)
  | inr (inl eq) ↦ rw (eq, insert) (s.0, s.1)
  | inr (inr gt) ↦
      rw (gt, insert)
        (
          Before-insert key name m es (compare_names-lt name key gt) s.0,
          insert-Sorted name m es s.1,
        )
]

lt_apart : (name key : List ℕ) → compare_names name key ≡ Ordering.lt → list_eq name key ≡ false
lt_apart name key lt = elim (Bool-cases (list_eq name key)) [
  | inl t ↦
      let eq = compare_names_refl key in
      let lt' = subst (λ k. compare_names k key ≡ Ordering.lt) (list_eq_sound name key t) lt in cc
  | inr f ↦ f
]

list_ne : (xs ys : List ℕ) → list_eq xs ys ≡ false → xs ≢ ys
list_ne xs ys f same =
    let no = subst (λ k. list_eq xs k ≡ false) (sym same) f in let yes = list_eq_refl xs in cc

get-Before : (name : List ℕ) (es : List Entry) → Before name es → get name es ≡ none
unfolding get
get-Before name [] b = refl
get-Before name ((key, n) ∷ es) b = rw (lt_apart name key b.0) (get-Before name es b.1)

-- A removal returns what the name had, and afterwards the name has nothing while every other name has
-- what it had, for entries in order.
get-remove :
    (name other : List ℕ) (entries : List Entry)
    → Sorted entries
    → ((remove name entries).0 ≡ get name entries)
      × (get other (remove name entries).1
          ≡ (if list_eq other name then none else get other entries))
unfolding get remove
get-remove name other [] s =
    (refl, elim (Bool-cases (list_eq other name)) [ inl t ↦ rw t refl | inr f ↦ rw f refl ])
get-remove name other ((key, n) ∷ es) s =
    let ih = get-remove name other es s.1 in
    elim (Bool-cases (list_eq name key)) [
      | inl t ↦ rw t (
        refl,
        elim (Bool-cases (list_eq other name)) [
          | inl o ↦ rw o (
              get-Before other es (
                subst (λ k. Before k es)
                  (sym (list_eq_sound other name o ∙ list_eq_sound name key t)) s.0))
          | inr o ↦
              rw o (rw (subst (λ k. list_eq other k ≡ false) (list_eq_sound name key t) o) refl)
        ],
      )
      | inr f ↦
          rw f
            (ih.0, rw ih.1 (apart other name key none (some n) (get other es) (list_ne name key f)))
    ]
