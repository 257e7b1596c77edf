-- ===== src/Catalog/Ancestry.antt =====
-- What `synthesize_missing_directories` of crates/holofs-model/src/fs.rs adds to a catalog.
use holofs.Prelude.{
  ℕ, ◌≡◌, ◌⊎◌, inl, inr, refl, sym, ap, ◌∙◌, subst, Bool-cases, List, [], ◌∷◌, some, In, list_eq,
  list_eq_refl, list_eq_sound,
}
use holofs.Manifest.{Manifest, directory_marker}
use holofs.Catalog.{Entry, compare_names, get, insert}
use holofs.Catalog.Entries.{Ordering-cases, get-insert}
use holofs.Catalog.Directories.{directory_id, insert_name, sort_names, dedup_names, insert_markers}

abbrev pub Name : Type 0
Name = List ℕ

abbrev pub marker : Name → Manifest
marker path = directory_marker (directory_id path)

get-insert_self : (p : Name) (m : Manifest) (es : List Entry) → get p (insert p m es) ≡ some m
get-insert_self p m es = get-insert p p m es ∙ rw (list_eq_refl p) refl

-- Inserting markers gives each path its marker and leaves the other names alone.
kept_marker :
    (ws : List Name) (es : List Entry) (p : Name)
    → get p es ≡ some (marker p)
    → get p (insert_markers ws es) ≡ some (marker p)
unfolding insert_markers
kept_marker [] es p e = e
kept_marker (w ∷ ws) es p e = kept_marker ws (insert w (marker w) es) p (
    get-insert w p (marker w) es ∙ elim (Bool-cases (list_eq p w)) [
      | inl t ↦ rw t (ap (λ q. some (marker q)) (sym (list_eq_sound p w t)))
      | inr f ↦ rw f e
    ])

pub marked :
    (ws : List Name) (es : List Entry) (p : Name)
    → In p ws
    → get p (insert_markers ws es) ≡ some (marker p)
unfolding insert_markers
marked (w ∷ ws) es p (inl e) = kept_marker ws (insert w (marker w) es) p (
    subst (λ q. get p (insert q (marker q) es) ≡ some (marker p)) (sym e)
      (get-insert_self p (marker p) es))
marked (w ∷ ws) es p (inr i) = marked ws (insert w (marker w) es) p i
marked [] es p i = absurd i

pub old_or_marked :
    (ws : List Name) (es : List Entry) (p : Name)
    → (get p (insert_markers ws es) ≡ get p es)
      ⊎ (In p ws × (get p (insert_markers ws es) ≡ some (marker p)))
unfolding insert_markers
old_or_marked [] es p = inl refl
old_or_marked (w ∷ ws) es p = elim (old_or_marked ws (insert w (marker w) es) p) [
  | inr (i, e) ↦ inr (inr i, e)
  | inl same ↦ elim (Bool-cases (list_eq p w)) [
    | inl t ↦
        let at = list_eq_sound p w t in
        inr (
          inl (sym at),
          same ∙ get-insert w p (marker w) es ∙ rw t (ap (λ q. some (marker q)) (sym at)),
        )
    | inr f ↦ inl (same ∙ get-insert w p (marker w) es ∙ rw f refl)
  ]
]

In-insert_name : (x p : Name) (ys : List Name) → In p (insert_name x ys) → In p (x ∷ ys)
unfolding insert_name
In-insert_name x p [] i = i
In-insert_name x p (y ∷ ys) i = elim (Ordering-cases (compare_names x y)) [
  | inl lt ↦ rw (lt, insert_name) at i
  | inr (inl eq) ↦ rw (eq, insert_name) at i
  | inr (inr gt) ↦ elim (rw (gt, insert_name) at i) [
    | inl e ↦ inr (inl e)
    | inr j ↦ elim (In-insert_name x p ys j) [ inl e ↦ inl e | inr k ↦ inr (inr k) ]
  ]
]

insert_name-In : (x p : Name) (ys : List Name) → In p (x ∷ ys) → In p (insert_name x ys)
unfolding insert_name
insert_name-In x p [] i = i
insert_name-In x p (y ∷ ys) i = elim (Ordering-cases (compare_names x y)) [
  | inl lt ↦ rw (lt, insert_name) i
  | inr (inl eq) ↦ rw (eq, insert_name) i
  | inr (inr gt) ↦
      rw (gt, insert_name)
        (elim i [
          | inl e ↦ inr (insert_name-In x p ys (inl e))
          | inr j ↦ elim j [ inl e ↦ inl e | inr k ↦ inr (insert_name-In x p ys (inr k)) ]
        ])
]

pub In-sort_names : (xs : List Name) (p : Name) → In p (sort_names xs) → In p xs
unfolding sort_names
In-sort_names [] p i = i
In-sort_names (x ∷ xs) p i = elim (In-insert_name x p (sort_names xs) i) [
  | inl e ↦ inl e
  | inr j ↦ inr (In-sort_names xs p j)
]

pub sort_names-In : (xs : List Name) (p : Name) → In p xs → In p (sort_names xs)
unfolding sort_names
sort_names-In [] p i = i
sort_names-In (x ∷ xs) p (inl e) = insert_name-In x p (sort_names xs) (inl e)
sort_names-In (x ∷ xs) p (inr i) = insert_name-In x p (sort_names xs) (inr (sort_names-In xs p i))

pub In-dedup_names : (xs : List Name) (p : Name) → In p (dedup_names xs) → In p xs
unfolding dedup_names
In-dedup_names [] p i = i
In-dedup_names (x ∷ []) p i = i
In-dedup_names (x ∷ y ∷ ys) p i = elim (Bool-cases (list_eq x y)) [
  | inl t ↦ inr (In-dedup_names (y ∷ ys) p (rw t at i))
  | inr f ↦ elim (rw f at i) [ inl e ↦ inl e | inr j ↦ inr (In-dedup_names (y ∷ ys) p j) ]
]

pub dedup_names-In : (xs : List Name) (p : Name) → In p xs → In p (dedup_names xs)
unfolding dedup_names
dedup_names-In [] p i = i
dedup_names-In (x ∷ []) p i = i
dedup_names-In (x ∷ y ∷ ys) p i = elim (Bool-cases (list_eq x y)) [
  | inl t ↦ rw t (elim i [
    | inl e ↦ dedup_names-In (y ∷ ys) p (inl (sym (list_eq_sound x y t) ∙ e))
    | inr j ↦ dedup_names-In (y ∷ ys) p j
  ])
  | inr f ↦ rw f (elim i [ inl e ↦ inl e | inr j ↦ inr (dedup_names-In (y ∷ ys) p j) ])
]
