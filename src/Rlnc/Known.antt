-- ===== src/Rlnc/Known.antt =====
-- The sorting of shards in the decoders of crates/holofs-core/src/rlnc.rs: what is taken for a source chunk is one.
use holofs.Prelude.{
  ℕ, zero, suc, ◌+◌, ◌-◌, ◌<◌, ◌≤◌, ◌≡◌, ◌⊎◌, inl, inr, refl, sym, ap, ap₂, ◌∙◌, subst, bit_xor,
  Bool, true, false, ◌&&◌, List, [], ◌∷◌, none, some, some_cancel, All, append-nil, length,
  length-set, get_or, set, drop, ltb, ltb→lt, ◌==◌, ==_iff, Bool-cases, Option-cases, arith,
}
use holofs.Shard.{Shard}
use holofs.Gf.Xor.{xor-zero}
use holofs.Rlnc.Encode.{chunk}
use holofs.Rlnc.Decode.{is_none, scan, identity_index, Known, Parts, free_place, sort_with_k}
use holofs.Rlnc.Linear.{IsByte, IsRow, dot}
use holofs.Rlnc.Reduce.{delta, delta_on, delta_off}
use holofs.Rlnc.Solution.{dot-delta}
use holofs.Rlnc.Encoder.{column, length-column, get_or-column, chunk-IsRow, Fits, column-IsByte}

-- A scan that has seen its 1 accepts zeros only.
scan-seen :
    (x : ℕ) (cs : List ℕ) (i q p : ℕ)
    → scan i (some q) (x ∷ cs) ≡ some (some p)
    → (x ≡ 0) × (scan (i + 1) (some q) cs ≡ some (some p))
unfolding scan
scan-seen x cs i q p e = elim (Bool-cases (x == 1)) [
  | inl t ↦ let bad = rw t at e in cc
  | inr f ↦
      let e' = rw f at e in
      elim (Bool-cases (x == 0)) [
        | inl z ↦ ((==_iff x 0).0 z, rw z at e')
        | inr n ↦ let bad = rw n at e' in cc
      ]
]

scan-unseen :
    (x : ℕ) (cs : List ℕ) (i p : ℕ)
    → scan i none (x ∷ cs) ≡ some (some p)
    → ((x ≡ 1) × (scan (i + 1) (some i) cs ≡ some (some p)))
      ⊎ ((x ≡ 0) × (scan (i + 1) none cs ≡ some (some p)))
unfolding scan
scan-unseen x cs i p e = elim (Bool-cases (x == 1)) [
  | inl t ↦ inl ((==_iff x 1).0 t, rw t at e)
  | inr f ↦
      let e' = rw f at e in
      elim (Bool-cases (x == 0)) [
        | inl z ↦ inr ((==_iff x 0).0 z, rw z at e')
        | inr n ↦ let bad = rw n at e' in cc
      ]
]

scan-zeros :
    (cs : List ℕ) (i q p c : ℕ) → scan i (some q) cs ≡ some (some p) → (p ≡ q) × (get_or cs c 0 ≡ 0)
unfolding scan
scan-zeros [] i q p c e = (sym (some_cancel (some_cancel e)), refl)
scan-zeros (x ∷ cs) i q p zero e =
    let (z, rest) = scan-seen x cs i q p e in ((scan-zeros cs (i + 1) q p 0 rest).0, z)
scan-zeros (x ∷ cs) i q p (suc c) e = scan-zeros cs (i + 1) q p c (scan-seen x cs i q p e).1

delta_shift : (p i c : ℕ) → i + 1 ≤ p → delta (p - (i + 1)) c ≡ delta (p - i) (suc c)
delta_shift p i c le = let e : p - i ≡ suc (p - (i + 1)) = omega arith in rw e (ground arith)

-- A scan that ends with a place has read the unit vector of that place.
pub scan-unit :
    (cs : List ℕ) (i p c : ℕ)
    → scan i none cs ≡ some (some p)
    → (i ≤ p) × (get_or cs c 0 ≡ delta (p - i) c)
unfolding scan
scan-unit [] i p c e = let bad = some_cancel e in cc
scan-unit (x ∷ cs) i p zero e = elim (scan-unseen x cs i p e) [
  | inl (one, rest) ↦
      let at = (scan-zeros cs (i + 1) i p 0 rest).0 in
      let here : p - i ≡ 0 = omega arith in
      (omega arith, one ∙ sym (ap (λ k. delta k 0) here ∙ delta_on 0))
  | inr (z, rest) ↦
      let le = (scan-unit cs (i + 1) p 0 rest).0 in
      (omega arith, z ∙ sym (delta_off (p - i) 0 (λ e. omega arith)))
]
scan-unit (x ∷ cs) i p (suc c) e = elim (scan-unseen x cs i p e) [
  | inl (one, rest) ↦
      let (at, zero_at) = scan-zeros cs (i + 1) i p c rest in
      (omega arith, zero_at ∙ sym (delta_off (p - i) (suc c) (λ e. omega arith)))
  | inr (z, rest) ↦
      let (le, entry) = scan-unit cs (i + 1) p c rest in (omega arith, entry ∙ delta_shift p i c le)
]

pub list_ext :
    (xs ys : List ℕ)
    → length xs ≡ length ys
    → ((j : ℕ) → j < length xs → get_or xs j 0 ≡ get_or ys j 0)
    → xs ≡ ys
list_ext [] [] e h = refl
list_ext [] (y ∷ ys) e h = absurd (omega arith)
list_ext (x ∷ xs) [] e h = absurd (omega arith)
list_ext (x ∷ xs) (y ∷ ys) e h =
    ap₂ (λ a t. a ∷ t) (h 0 (omega arith))
      (list_ext xs ys (omega arith) (λ j b. h (suc j) (omega arith)))

pub dot-nil : (xs : List ℕ) → dot xs [] ≡ 0
unfolding dot
dot-nil [] = refl
dot-nil (x ∷ xs) = refl

and_left : (a b : Bool) → (a && b) ≡ true → a ≡ true
and_left true b e = refl
and_left false b e = e

pub identity_index-scan :
    (cs : List ℕ) (q : ℕ) → identity_index cs ≡ some q → scan 0 none cs ≡ some (some q)
unfolding identity_index
identity_index-scan cs q e = elim (Option-cases (scan 0 none cs)) [
  | inl bad ↦ let bad' = rw (bad, identity_index) at e in cc
  | inr (idx, at) ↦ at ∙ ap some (rw (at, identity_index) at e)
]

free_place-some :
    (k : ℕ) (known : Known) (cs : List ℕ) (q : ℕ)
    → free_place k known (identity_index cs) ≡ some q
    → (scan 0 none cs ≡ some (some q)) × (q < k)
unfolding free_place
free_place-some k known cs q e = elim (Option-cases (identity_index cs)) [
  | inl bad ↦ let bad' = rw bad at e in cc
  | inr (p, at) ↦
      let e' = rw at at e in
      elim (Bool-cases (ltb p k && is_none (get_or known p none))) [
        | inl t ↦
            let same : p ≡ q = some_cancel (rw t at e') in
            (
              identity_index-scan cs q (at ∙ ap some same),
              subst (λ m. m < k) same
                  (ltb→lt p k (and_left (ltb p k) (is_none (get_or known p none)) t)),
            )
        | inr f ↦ let bad' = rw f at e' in cc
      ]
]

module _ (padded : List ℕ) (k sl : ℕ) (hp : All IsByte padded) (fits : Fits k sl padded) where
  -- The shard is true to the chunks in every payload column.
  abbrev pub IsTrue : Shard → Type 0
  IsTrue s =
      IsRow k s.coeffs
      × IsRow sl s.payload
      × ((j : ℕ) → j < sl → dot s.coeffs (column padded sl j 0 k) ≡ get_or s.payload j 0)

  -- What is known from position `i` on is the chunk of its position.
  abbrev pub IsGood : ℕ → Known → Type 0
  IsGood i [] = Unit
  IsGood i (none ∷ known) = IsGood (i + 1) known
  IsGood i (some c ∷ known) = (c ≡ chunk padded sl i) × IsGood (i + 1) known

  pub set-IsGood :
      (known : Known) (i m : ℕ) (c : List ℕ)
      → IsGood i known
      → c ≡ chunk padded sl (i + m)
      → IsGood i (set known m (some c))
  set-IsGood [] i m c h e = tt
  set-IsGood (none ∷ known) i zero c h e =
      let z : i + 0 ≡ i = omega arith in (e ∙ ap (chunk padded sl) z, h)
  set-IsGood (some d ∷ known) i zero c h e =
      let z : i + 0 ≡ i = omega arith in (e ∙ ap (chunk padded sl) z, h.1)
  set-IsGood (none ∷ known) i (suc m) c h e =
      let z : i + suc m ≡ i + 1 + m = omega arith in
      set-IsGood known (i + 1) m c h (e ∙ ap (chunk padded sl) z)
  set-IsGood (some d ∷ known) i (suc m) c h e =
      let z : i + suc m ≡ i + 1 + m = omega arith in
      (h.0, set-IsGood known (i + 1) m c h.1 (e ∙ ap (chunk padded sl) z))

  pub unit_payload :
      (s : Shard) (q : ℕ)
      → IsTrue s
      → scan 0 none s.coeffs ≡ some (some q)
      → q < k
      → s.payload ≡ chunk padded sl q
  unit_payload s q (cr, pr, sums) e lt =
      list_ext s.payload (chunk padded sl q)
        (omega (arith, pr.0, (chunk-IsRow padded sl q hp (fits q lt)).0))
        (λ j b.
          let values = column padded sl j 0 k in
          let len = length-column padded sl j 0 k in
          let pick =
            dot-delta values s.coeffs [] q (column-IsByte padded k sl hp fits j 0 k (omega arith))
              (omega (arith, cr.0))
              (λ c hc.
                let z : q - 0 ≡ q = omega arith in
                (scan-unit s.coeffs 0 q c e).1 ∙ ap (λ t. delta t c) z) in
          let z : 0 + q ≡ q = omega arith in
          sym (sums j (omega (arith, pr.0)))
          ∙ ap (dot s.coeffs) (sym (append-nil values))
          ∙ pick
          ∙ ap (bit_xor (get_or values q 0)) (dot-nil (drop (length values) s.coeffs))
          ∙ xor-zero (get_or values q 0)
          ∙ get_or-column padded sl j 0 k q lt
          ∙ ap (λ t. get_or (chunk padded sl t) j 0) z)

  abbrev pub AreSorted : Parts → Type 0
  AreSorted parts = IsGood 0 parts.known × (length parts.known ≡ k) × All IsTrue parts.rlnc

  pub sort_with_k-AreSorted :
      (shards : List Shard) (known : Known)
      → All IsTrue shards
      → IsGood 0 known
      → length known ≡ k
      → AreSorted (sort_with_k k known shards)
  unfolding sort_with_k
  sort_with_k-AreSorted [] known h good len = (good, len, tt)
  sort_with_k-AreSorted (s ∷ shards) known h good len =
      elim (Option-cases (free_place k known (identity_index s.coeffs))) [
        | inl taken ↦
            rw taken
              (let (g, l, t) = sort_with_k-AreSorted shards known h.1 good len in (g, l, (h.0, t)))
        | inr (q, free) ↦
            let (at, lt) = free_place-some k known s.coeffs q free in
            let z : 0 + q ≡ q = omega arith in
            rw free (
              sort_with_k-AreSorted shards (set known q (some s.payload)) h.1
                (set-IsGood known 0 q s.payload good
                  (unit_payload s q h.0 at lt ∙ ap (chunk padded sl) (sym z)))
                (length-set known q (some s.payload) ∙ len))
      ]
