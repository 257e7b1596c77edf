-- ===== src/Storage/HashMap.antt =====
-- The hash maps of crates/holofs-storage/src/node_service.rs, as lists of their entries. The order of the
-- entries stands for the order of iteration, which the code does not rely on.
use holofs.Prelude.{
  ◌≡◌, ◌≢◌, ◌↔◌, inl, inr, refl, sym, ap, ◌∙◌, subst, Bool, true, false, List, [], ◌∷◌, Option,
  none, some, some_cancel, In, All, if◌then◌else◌, Bool-cases,
}

-- The equality of keys.
pub record Keyed (K : Type 0) : Type 0 where
  pub beq : K → K → Bool
  pub beq_iff : (a b : K) → (beq a b ≡ true) ↔ (a ≡ b)

module _ {K : Type 0} ⦃e : Keyed K⦄ where
  pub beq_apart : (a b : K) → a ≢ b → e.beq a b ≡ false
  beq_apart a b ne = elim (Bool-cases (e.beq a b)) [
    | inl t ↦ absurd (ne ((e.beq_iff a b).0 t))
    | inr f ↦ f
  ]

  pub beq_self : (a : K) → e.beq a a ≡ true
  beq_self a = (e.beq_iff a a).1 refl

module _ {K V : Type 0} ⦃e : Keyed K⦄ where
  unfoldable pub find : K → List (K × V) → Option V
  find k [] = none
  find k ((j, v) ∷ m) = let later = find k m in if e.beq j k then some v else later

  unfoldable pub insert : K → V → List (K × V) → List (K × V)
  insert k v [] = (k, v) ∷ []
  insert k v ((j, w) ∷ m) =
      let later = insert k v m in if e.beq j k then (k, v) ∷ m else (j, w) ∷ later

  -- `HashMap::retain` with a test of the key.
  unfoldable pub retain : (K → Bool) → List (K × V) → List (K × V)
  retain p [] = []
  retain p ((j, v) ∷ m) = let later = retain p m in if p j then (j, v) ∷ later else later

  pub find-insert :
      (j k : K) (v : V) (m : List (K × V))
      → find j (insert k v m) ≡ (if e.beq k j then some v else find j m)
  unfolding find insert
  find-insert j k v [] = refl
  find-insert j k v ((i, w) ∷ m) = elim (Bool-cases (e.beq i k)) [
    | inl t ↦
        let same = (e.beq_iff i k).0 t in
        rw t (rw same (elim (Bool-cases (e.beq k j)) [ inl s ↦ rw s refl | inr f ↦ rw f refl ]))
    | inr f ↦ rw f (
        rw (find-insert j k v m) (elim (Bool-cases (e.beq i j)) [
          | inl s ↦ elim (Bool-cases (e.beq k j)) [
            | inl u ↦
                let same = (e.beq_iff i j).0 s ∙ sym ((e.beq_iff k j).0 u) in
                let t = (e.beq_iff i k).1 same in cc
            | inr g ↦ rw (s, g) refl
          ]
          | inr g ↦ rw g refl
        ]))
  ]

  pub find-insert_self : (k : K) (v : V) (m : List (K × V)) → find k (insert k v m) ≡ some v
  find-insert_self k v m = find-insert k k v m ∙ rw (beq_self k) refl

  pub find-insert_other :
      (j k : K) (v : V) (m : List (K × V)) → k ≢ j → find j (insert k v m) ≡ find j m
  find-insert_other j k v m ne = find-insert j k v m ∙ rw (beq_apart k j ne) refl

  pub find-retain :
      (j : K) (p : K → Bool) (m : List (K × V))
      → find j (retain p m) ≡ (if p j then find j m else none)
  unfolding find retain
  find-retain j p [] = elim (Bool-cases (p j)) [ inl t ↦ rw t refl | inr f ↦ rw f refl ]
  find-retain j p ((i, w) ∷ m) = elim (Bool-cases (p i)) [
    | inl t ↦ rw t (
        rw (find-retain j p m) (elim (Bool-cases (e.beq i j)) [
          | inl s ↦ let pj : p j ≡ true = ap p (sym ((e.beq_iff i j).0 s)) ∙ t in rw (s, pj) refl
          | inr g ↦ rw g refl
        ]))
    | inr f ↦ rw f (
        rw (find-retain j p m) (elim (Bool-cases (e.beq i j)) [
          | inl s ↦ let pj : p j ≡ false = ap p (sym ((e.beq_iff i j).0 s)) ∙ f in rw pj refl
          | inr g ↦ rw g refl
        ]))
  ]

  pub insert_same : (k : K) (v : V) (m : List (K × V)) → find k m ≡ some v → insert k v m ≡ m
  unfolding find insert
  insert_same k v [] h = cc
  insert_same k v ((i, w) ∷ m) h = elim (Bool-cases (e.beq i k)) [
    | inl t ↦
        let same = (e.beq_iff i k).0 t in
        let val = some_cancel (rw t at h) in rw t (λ x. (sym same x, sym val x) ∷ m)
    | inr f ↦ rw f (ap (λ l. (i, w) ∷ l) (insert_same k v m (rw f at h)))
  ]

  -- No key stands twice.
  abbrev pub Distinct : List (K × V) → Type 0
  Distinct [] = Unit
  Distinct ((k, v) ∷ m) = (find k m ≡ none) × Distinct m

  pub insert-Distinct : (k : K) (v : V) (m : List (K × V)) → Distinct m → Distinct (insert k v m)
  unfolding find insert
  insert-Distinct k v [] h = (refl, tt)
  insert-Distinct k v ((i, w) ∷ m) h = elim (Bool-cases (e.beq i k)) [
    | inl t ↦ let same = (e.beq_iff i k).0 t in rw t (subst (λ x. find x m ≡ none) same h.0, h.1)
    | inr f ↦ rw f (
      find-insert_other i k v m (λ s. let t = (e.beq_iff i k).1 (sym s) in cc) ∙ h.0,
      insert-Distinct k v m h.1,
    )
  ]

  pub retain-Distinct : (p : K → Bool) (m : List (K × V)) → Distinct m → Distinct (retain p m)
  unfolding retain
  retain-Distinct p [] h = tt
  retain-Distinct p ((i, w) ∷ m) h = elim (Bool-cases (p i)) [
    | inl t ↦ rw t (find-retain i p m ∙ rw t h.0, retain-Distinct p m h.1)
    | inr f ↦ rw f (retain-Distinct p m h.1)
  ]

  -- What is found stands in the list.
  pub In-find : (k : K) (v : V) (m : List (K × V)) → find k m ≡ some v → In (k, v) m
  unfolding find
  In-find k v [] h = cc
  In-find k v ((i, w) ∷ m) h = elim (Bool-cases (e.beq i k)) [
    | inl t ↦
        let same = (e.beq_iff i k).0 t in
        let val = some_cancel (rw t at h) in inl (λ x. (same x, val x))
    | inr f ↦ inr (In-find k v m (rw f at h))
  ]

  find_of_In : (k : K) (v : V) (m : List (K × V)) → find k m ≡ none → In (k, v) m → ⊥
  unfolding find
  find_of_In k v [] h i = absurd i
  find_of_In k v ((j, w) ∷ m) h i = elim (Bool-cases (e.beq j k)) [
    | inl t ↦ let bad = rw t at h in cc
    | inr f ↦ elim i [
      | inl s ↦ let t = (e.beq_iff j k).1 (ap (λ p. p.0) s) in cc
      | inr r ↦ find_of_In k v m (rw f at h) r
    ]
  ]

  -- Where no key stands twice, what stands in the list is found.
  pub find-In : (k : K) (v : V) (m : List (K × V)) → Distinct m → In (k, v) m → find k m ≡ some v
  unfolding find
  find-In k v [] d i = absurd i
  find-In k v ((j, w) ∷ m) d i = elim i [
    | inl s ↦ let t = (e.beq_iff j k).1 (ap (λ p. p.0) s) in rw t (ap (λ p. some p.1) s)
    | inr r ↦ elim (Bool-cases (e.beq j k)) [
      | inl t ↦
          let same = (e.beq_iff j k).0 t in
          absurd (find_of_In k v m (subst (λ x. find x m ≡ none) same d.0) r)
      | inr f ↦ rw f (find-In k v m d.1 r)
    ]
  ]

  module _ (P : K × V → Type 0) where
    pub All-find : (k : K) (v : V) (m : List (K × V)) → All P m → find k m ≡ some v → P (k, v)
    unfolding find
    All-find k v [] h f = cc
    All-find k v ((i, w) ∷ m) h f = elim (Bool-cases (e.beq i k)) [
      | inl t ↦
          let same = (e.beq_iff i k).0 t in
          let val = some_cancel (rw t at f) in subst P (λ x. (same x, val x)) h.0
      | inr g ↦ All-find k v m h.1 (rw g at f)
    ]

    pub All-insert : (k : K) (v : V) (m : List (K × V)) → All P m → P (k, v) → All P (insert k v m)
    unfolding insert
    All-insert k v [] h p = (p, tt)
    All-insert k v ((i, w) ∷ m) h p = elim (Bool-cases (e.beq i k)) [
      | inl t ↦ rw t (p, h.1)
      | inr g ↦ rw g (h.0, All-insert k v m h.1 p)
    ]

    pub All-retain : (p : K → Bool) (m : List (K × V)) → All P m → All P (retain p m)
    unfolding retain
    All-retain p [] h = tt
    All-retain p ((i, w) ∷ m) h = elim (Bool-cases (p i)) [
      | inl t ↦ rw t (h.0, All-retain p m h.1)
      | inr g ↦ rw g (All-retain p m h.1)
    ]
