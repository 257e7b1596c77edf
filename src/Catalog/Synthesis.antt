-- ===== src/Catalog/Synthesis.antt =====
-- `synthesize_missing_directories` of crates/holofs-model/src/fs.rs completes a catalog.
use holofs.Prelude.{
  ◌+◌, ◌≡◌, ◌⊎◌, inl, inr, refl, sym, ap, ◌∙◌, false, Bool-cases, Option-cases, List, [], ◌∷◌, ◌++◌,
  none, some, some_cancel, In, In-left, In-right, In-sides, length,
}
use holofs.CatalogPath.{slash, ancestors}
use holofs.CatalogPath.Ancestors.{In-ancestors_iff}
use holofs.Manifest.{Manifest}
use holofs.Catalog.{Entry, get}
use holofs.Catalog.Directories.{
  is_directory, contains_key, missing, wanted_of, sort_names, dedup_names,
  synthesize_missing_directories,
}
use holofs.Catalog.NewNames.{dedup-Strict, sort-Ascending, length-insert_markers}
use holofs.Catalog.Ancestry.{
  Name, marker, marked, old_or_marked, In-sort_names, sort_names-In, In-dedup_names, dedup_names-In,
}

-- `p` is the name of a directory above an entry that is none itself, and has no entry.
pub record IsWanted (entries : List Entry) (p : Name) : Type 0 where
  pub absent : get p entries ≡ none
  pub key : Name
  pub m : Manifest
  pub rest : Name
  pub entry : In (key, m) entries
  pub no_directory : is_directory m.kind ≡ false
  pub below : key ≡ p ++ slash ∷ rest

absent_key : (es : List Entry) (p : Name) → contains_key es p ≡ false → get p es ≡ none
absent_key es p e = elim (Option-cases (get p es)) [
  | inl absent ↦ absent
  | inr (m, there) ↦ let bad = rw (there, contains_key) at e in cc
]

no_key : (es : List Entry) (p : Name) → get p es ≡ none → contains_key es p ≡ false
no_key es p e = rw (e, contains_key) refl

In-missing :
    (es : List Entry) (ancs : List Name) (p : Name)
    → In p (missing es ancs)
    → In p ancs × (get p es ≡ none)
unfolding missing
In-missing es [] p i = absurd i
In-missing es (a ∷ ancs) p i = elim (Bool-cases (contains_key es a)) [
  | inl t ↦ let (j, e) = In-missing es ancs p (rw t at i) in (inr j, e)
  | inr f ↦ elim (rw f at i) [
    | inl e ↦ (inl e, absent_key es p (ap (contains_key es) (sym e) ∙ f))
    | inr j ↦ let (k, e) = In-missing es ancs p j in (inr k, e)
  ]
]

missing-In :
    (es : List Entry) (ancs : List Name) (p : Name)
    → get p es ≡ none
    → In p ancs
    → In p (missing es ancs)
unfolding missing
missing-In es (a ∷ ancs) p absent i = elim (Bool-cases (contains_key es a)) [
  | inl t ↦ elim i [
    | inl e ↦ let bad = sym t ∙ ap (contains_key es) e ∙ no_key es p absent in cc
    | inr j ↦ rw t (missing-In es ancs p absent j)
  ]
  | inr f ↦ elim i [ inl e ↦ rw f (inl e) | inr j ↦ rw f (inr (missing-In es ancs p absent j)) ]
]
missing-In es [] p absent i = absurd i

wanted_of_sound :
    (all es : List Entry) (p : Name)
    → ((e : Entry) → In e es → In e all)
    → In p (wanted_of all es)
    → IsWanted all p
unfolding wanted_of
wanted_of_sound all [] p sub i = absurd i
wanted_of_sound all ((key, m) ∷ es) p sub i =
    let further = wanted_of_sound all es p (λ e j. sub e (inr j)) in
    elim (Bool-cases (is_directory m.kind)) [
      | inl t ↦ further (rw t at i)
      | inr f ↦ elim (In-sides p (missing all (ancestors key)) _ (rw f at i)) [
        | inr j ↦ further j
        | inl j ↦
            let (anc, absent) = In-missing all (ancestors key) p j in
            let (rest, below) = (In-ancestors_iff key p).0 anc in
            record {
              absent = absent;
              key = key;
              m = m;
              rest = rest;
              entry = sub (key, m) (inl refl);
              no_directory = f;
              below = below;
            }
      ]
    ]

wanted_of_complete :
    (all es : List Entry) (p key rest : Name) (m : Manifest)
    → get p all ≡ none
    → In (key, m) es
    → is_directory m.kind ≡ false
    → key ≡ p ++ slash ∷ rest
    → In p (wanted_of all es)
unfolding wanted_of
wanted_of_complete all ((key', m') ∷ es) p key rest m absent (inl e) file below =
    let same = ap (λ (x : Entry). x.0) e in
    let file' = ap (λ (x : Entry). is_directory x.1.kind) e ∙ file in
    let anc = (In-ancestors_iff key' p).1 (rest, same ∙ below) in
    rw file'
      (In-left p (missing all (ancestors key')) _ (missing-In all (ancestors key') p absent anc))
wanted_of_complete all ((key', m') ∷ es) p key rest m absent (inr i) file below =
    let later = wanted_of_complete all es p key rest m absent i file below in
    elim (Bool-cases (is_directory m'.kind)) [
      | inl t ↦ rw t later
      | inr f ↦ rw f (In-right p (missing all (ancestors key')) _ later)
    ]
wanted_of_complete all [] p key rest m absent i file below = absurd i

-- The names that get a marker.
In-IsWanted :
    (es : List Entry) (p : Name)
    → (In p (dedup_names (sort_names (wanted_of es es))) → IsWanted es p)
      × (IsWanted es p → In p (dedup_names (sort_names (wanted_of es es))))
In-IsWanted es p = (
  λ i.
      wanted_of_sound es es p (λ e j. j)
        (In-sort_names (wanted_of es es) p (In-dedup_names (sort_names (wanted_of es es)) p i)),
  λ w. dedup_names-In (sort_names (wanted_of es es)) p (
      sort_names-In (wanted_of es es) p
        (wanted_of_complete es es p w.key w.rest w.m w.absent w.entry w.no_directory w.below)),
)

-- The completed catalog: a name that had a manifest keeps it; the name of a directory that has none, above an
-- entry that is no directory, gets the marker whose number comes from the hash of the name; and there is
-- nothing else in it. The number that is returned is that of the new entries.
pub get-synthesize_missing_directories :
    (entries : List Entry) (p : Name)
    → let completed = (synthesize_missing_directories entries).0 in
      ((m : Manifest) → get p entries ≡ some m → get p completed ≡ some m)
      × (IsWanted entries p → get p completed ≡ some (marker p))
      × ((m : Manifest)
          → get p completed ≡ some m
          → (get p entries ≡ some m) ⊎ (IsWanted entries p × (m ≡ marker p)))
      × (length completed ≡ length entries + (synthesize_missing_directories entries).1)
unfolding synthesize_missing_directories
get-synthesize_missing_directories es p =
    let ws = dedup_names (sort_names (wanted_of es es)) in
    (
      λ m e. elim (old_or_marked ws es p) [
        | inl same ↦ same ∙ e
        | inr (i, _) ↦ let bad = sym ((In-IsWanted es p).0 i).absent ∙ e in cc
      ],
      λ w. marked ws es p ((In-IsWanted es p).1 w),
      λ m e. elim (old_or_marked ws es p) [
        | inl same ↦ inl (sym same ∙ e)
        | inr (i, new) ↦ inr ((In-IsWanted es p).0 i, some_cancel (sym e ∙ new))
      ],
      length-insert_markers ws es
          (dedup-Strict (sort_names (wanted_of es es)) (sort-Ascending (wanted_of es es)))
          (λ q i. ((In-IsWanted es q).0 i).absent),
    )
