-- ===== src/Catalog/Entries.antt =====
-- The map operations of crates/holofs-model/src/fs.rs, and the order that its entries keep.
use Prim.Native.Nat.{Ordering}
use holofs.Prelude.{
  ℕ, ◌≡◌, ◌≢◌, ◌⊎◌, inl, inr, refl, sym, ap, ◌∙◌, subst, List, [], ◌∷◌, ◌++◌, some, All, list_eq,
  list_eq_sound, if◌then◌else◌, arith, Bool-cases, append_assoc, append-nil, All-append,
}
use holofs.Manifest.{Manifest}
use holofs.Catalog.{Entry, compare_names, insert, get, insert_all}

compare_names-gt :
    (xs ys : List ℕ) → compare_names xs ys ≡ Ordering.lt → compare_names ys xs ≡ Ordering.gt
unfolding compare_names
compare_names-gt [] [] h = ground arith
compare_names-gt [] (y ∷ ys) h = refl
compare_names-gt (x ∷ xs) [] h = ground arith
compare_names-gt (x ∷ xs) (y ∷ ys) h = ground (arith, compare_names-gt xs ys)

pub compare_names-eq : (xs ys : List ℕ) → compare_names xs ys ≡ Ordering.eq → xs ≡ ys
unfolding compare_names
compare_names-eq [] [] h = refl
compare_names-eq [] (y ∷ ys) h = ground arith
compare_names-eq (x ∷ xs) [] h = ground arith
compare_names-eq (x ∷ xs) (y ∷ ys) h = grind (arith, compare_names-eq xs ys)

pub compare_names_refl : (xs : List ℕ) → compare_names xs xs ≡ Ordering.eq
unfolding compare_names
compare_names_refl [] = refl
compare_names_refl (x ∷ xs) = ground (arith, compare_names_refl xs)

gt_apart : (name key : List ℕ) → compare_names name key ≡ Ordering.gt → name ≢ key
gt_apart name key gt same =
    let eq = compare_names_refl key in
    let gt' = subst (λ k. compare_names k key ≡ Ordering.gt) same gt in cc

pub Ordering-cases : (o : Ordering) → (o ≡ Ordering.lt) ⊎ ((o ≡ Ordering.eq) ⊎ (o ≡ Ordering.gt))
Ordering-cases o = ground arith

same_key :
    (other key : List ℕ) (m n : Manifest) (rest : List Entry)
    → get other ((key, m) ∷ rest)
      ≡ (if list_eq other key then some m else get other ((key, n) ∷ rest))
unfolding get
same_key other key m n rest = elim (Bool-cases (list_eq other key)) [
  | inl t ↦ rw t refl
  | inr f ↦ rw f refl
]

pub apart :
    {A : Type 0} (other name key : List ℕ) (x y z : A)
    → name ≢ key
    → (if list_eq other key then y else (if list_eq other name then x else z))
      ≡ (if list_eq other name then x else (if list_eq other key then y else z))
apart other name key x y z ne = elim (Bool-cases (list_eq other key)) [
  | inl t ↦ elim (Bool-cases (list_eq other name)) [
    | inl s ↦ absurd (ne (sym (list_eq_sound other name s) ∙ list_eq_sound other key t))
    | inr f ↦ rw (t, f) refl
  ]
  | inr f ↦ rw f refl
]

-- After an insertion, looking a name up gives the inserted manifest under the inserted name, and what
-- was there before under any other, whatever the entries.
pub get-insert :
    (name other : List ℕ) (m : Manifest) (entries : List Entry)
    → get other (insert name m entries) ≡ (if list_eq other name then some m else get other entries)
unfolding get insert
get-insert name other m [] = refl
get-insert name other m ((key, n) ∷ rest) = elim (Ordering-cases (compare_names name key)) [
  | inl lt ↦ rw (lt, insert) refl
  | inr (inl eq) ↦ rw (eq, insert) (rw (compare_names-eq name key eq) (same_key other key m n rest))
  | inr (inr gt) ↦
      rw (gt, insert)
        (rw (get-insert name other m rest)
          (apart other name key (some m) (some n) (get other rest) (gt_apart name key gt)))
]

-- The names that stand before all those of a list.
abbrev pub Before : List ℕ → List Entry → Type 0
Before name entries = All (λ e. compare_names name e.0 ≡ Ordering.lt) entries

-- Every name stands before all later ones.
abbrev pub Sorted : List Entry → Type 0
Sorted [] = Unit
Sorted (e ∷ es) = Before e.0 es × Sorted es

insert-last :
    (done : List Entry) (name : List ℕ) (m : Manifest)
    → All (λ e. compare_names e.0 name ≡ Ordering.lt) done
    → insert name m done ≡ done ++ (name, m) ∷ []
unfolding insert
insert-last [] name m h = refl
insert-last ((key, n) ∷ done) name m h =
    rw (compare_names-gt key name h.0, insert)
      (ap (λ es. (key, n) ∷ es) (insert-last done name m h.1))

-- The entries that stand after all those of a list.
abbrev After : List Entry → List Entry → Type 0
After done more = All (λ e. All (λ d. compare_names d.0 e.0 ≡ Ordering.lt) done) more

After-cons :
    (e : Entry) (done more : List Entry)
    → Before e.0 more
    → After done more
    → After (done ++ e ∷ []) more
After-cons e done [] b a = tt
After-cons e done (f ∷ more) b a = (
  All-append (λ d. compare_names d.0 f.0 ≡ Ordering.lt) done (e ∷ []) a.0 (b.0, tt),
  After-cons e done more b.1 a.1,
)

insert_all-append :
    (done more : List Entry) → Sorted more → After done more → insert_all done more ≡ done ++ more
unfolding insert_all
insert_all-append done [] s a = sym (append-nil done)
insert_all-append done ((name, m) ∷ more) s a = rw (insert-last done name m a.0) (
    insert_all-append (done ++ (name, m) ∷ []) more s.1 (After-cons (name, m) done more s.0 a.1)
    ∙ append_assoc done ((name, m) ∷ []) more)

After-nil : (more : List Entry) → After [] more
After-nil [] = tt
After-nil (e ∷ more) = (tt, After-nil more)

-- Inserting the entries of a catalog one by one, in their order, builds the catalog.
pub insert_all-Sorted : (entries : List Entry) → Sorted entries → insert_all [] entries ≡ entries
insert_all-Sorted entries s = insert_all-append [] entries s (After-nil entries)
