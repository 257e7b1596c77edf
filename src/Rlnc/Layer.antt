-- ===== src/Rlnc/Layer.antt =====
-- `decode_layer` of crates/holofs-core/src/rlnc.rs, the decoder that the client calls, with the constant `K`.
use holofs.Prelude.{
  ℕ, zero, suc, ◌+◌, ◌-◌, ◌<◌, ◌≤◌, ◌≡◌, false, inl, inr, refl, sym, ap, ◌∙◌, subst, List, [], ◌∷◌,
  Option, none, some, some_cancel, In, All, length, length-set, get_elem?, get_or, set, ltb,
  Bool-cases, Option-cases, arith,
}
use holofs.Shard.{Shard}
use holofs.Rlnc.Encode.{chunk}
use holofs.Rlnc.Decode.{
  is_none, count_known, Known, Parts, scan, identity_index, sort_one, sort_layer,
}
use holofs.Rlnc.Linear.{IsByte}
use holofs.Rlnc.Encoder.{Fits}
use holofs.Rlnc.Reduce.{delta, delta_on}
use holofs.Rlnc.Known.{
  IsTrue, IsGood, AreSorted, identity_index-scan, scan-unit, set-IsGood, unit_payload,
}
use holofs.Rlnc.Reduction.{get_elem-get_or_d}

get_or-outside : (xs : List ℕ) (i : ℕ) → length xs ≤ i → get_or xs i 0 ≡ 0
get_or-outside [] i h = refl
get_or-outside (x ∷ xs) zero h = absurd (omega arith)
get_or-outside (x ∷ xs) (suc i) h = get_or-outside xs i (omega arith)

-- A unit vector has its 1 in range.
unit-inside : (cs : List ℕ) (q : ℕ) → scan 0 none cs ≡ some (some q) → q < length cs
unit-inside cs q e = elim (Bool-cases (ltb q (length cs))) [
  | inl t ↦ ground arith
  | inr f ↦
      let z : q - 0 ≡ q = omega arith in
      let at = (scan-unit cs 0 q q e).1 ∙ ap (λ t. delta t q) z ∙ delta_on q in
      let out = get_or-outside cs q (ground arith) in absurd (omega arith)
]

-- What a unit vector does, by what is known at its place.
at_place :
    (s : Shard) (q : ℕ) (known : Known) (shards : List Shard) (parts : Parts)
    (o : Option (Option (List ℕ)))
    → get_elem? known q ≡ o
    → (elim o as (λ x. Option Parts) [
      | none ↦ none
      | some none ↦ sort_layer (set known q (some s.payload)) shards
      | some (some chunk) ↦ sort_layer known shards
    ])
      ≡ some parts
    → sort_one s (some q) known (λ kn. sort_layer kn shards) ≡ some parts
at_place s q known shards parts o e h =
    subst
      (λ x.
        (elim x as (λ y. Option Parts) [
          | none ↦ none
          | some none ↦ sort_layer (set known q (some s.payload)) shards
          | some (some chunk) ↦ sort_layer known shards
        ])
        ≡ some parts)
      (sym e) h

-- Something is known at the place.
abbrev pub Filled : Known → ℕ → Type 0
Filled known p = is_none (get_or known p none) ≡ false

count_known-set :
    (known : Known) (q : ℕ) (c : List ℕ)
    → count_known (set known q (some c)) ≤ count_known known + 1
unfolding count_known
count_known-set [] q c = omega arith
count_known-set (none ∷ known) zero c = omega arith
count_known-set (some d ∷ known) zero c = omega arith
count_known-set (none ∷ known) (suc q) c = count_known-set known q c
count_known-set (some d ∷ known) (suc q) c = omega (arith, count_known-set known q c)

Filled-set_at :
    (known : Known) (q : ℕ) (c : List ℕ) → q < length known → Filled (set known q (some c)) q
Filled-set_at [] q c h = absurd (omega arith)
Filled-set_at (o ∷ known) zero c h = refl
Filled-set_at (o ∷ known) (suc q) c h = Filled-set_at known q c (omega arith)

Filled-set :
    (known : Known) (q p : ℕ) (c : List ℕ) → Filled known p → Filled (set known q (some c)) p
Filled-set [] q p c h = h
Filled-set (o ∷ known) zero zero c h = refl
Filled-set (o ∷ known) zero (suc p) c h = h
Filled-set (o ∷ known) (suc q) zero c h = h
Filled-set (o ∷ known) (suc q) (suc p) c h = Filled-set known q p c h

pub all-Filled :
    (known : Known)
    → ((p : ℕ) → p < length known → Filled known p)
    → count_known known ≡ length known
unfolding count_known
all-Filled [] h = refl
all-Filled (none ∷ known) h = let bad = h 0 (omega arith) in cc
all-Filled (some c ∷ known) h = ap suc (all-Filled known (λ p lt. h (suc p) (omega arith)))

-- What the sorting of shards adds to what is known.
pub record Gains (known : Known) (shards : List Shard) (parts : Parts) : Type 0 where
  pub counts : count_known parts.known ≤ count_known known + length shards
  pub keeps : (p : ℕ) → Filled known p → Filled parts.known p
  pub fills :
      (p : ℕ) (t : Shard) → In t shards → identity_index t.coeffs ≡ some p → Filled parts.known p

module _ (padded : List ℕ) (k sl : ℕ) (hp : All IsByte padded) (fits : Fits k sl padded) where
  abbrev Sorts : Known → List Shard → Type 0
  Sorts known shards =
      (parts : Parts) × (sort_layer known shards ≡ some parts)
      × AreSorted padded k sl hp fits parts
      × Gains known shards parts

  -- The sorting of true shards reads no place out of range.
  pub sort_layer-Sorts :
      (shards : List Shard) (known : Known)
      → All (IsTrue padded k sl hp fits) shards
      → IsGood padded k sl hp fits 0 known
      → length known ≡ k
      → Sorts known shards
  unfolding sort_layer
  sort_layer-Sorts [] known h good len = (
    _,
    refl,
    (good, len, tt),
    record { counts = omega arith; keeps = λ p f. f; fills = λ p t i e. absurd i },
  )
  sort_layer-Sorts (s ∷ shards) known h good len = elim (Option-cases (identity_index s.coeffs)) [
    | inl other ↦
        let (parts, e, (g, l, t), gains) = sort_layer-Sorts shards known h.1 good len in
        (
          record { known = parts.known; rlnc = s ∷ parts.rlnc },
          rw (other, sort_layer) (rw e refl),
          (g, l, (h.0, t)),
          record {
            counts = omega (arith, gains.counts);
            keeps = gains.keeps;
            fills = λ p t i u. elim i [
              | inl same ↦
                  let u' = subst (λ (x : Shard). identity_index x.coeffs ≡ some p) (sym same) u in
                  cc
              | inr later ↦ gains.fills p t later u
            ];
          },
        )
    | inr (q, unit) ↦
        let at = identity_index-scan s.coeffs q unit in
        let inside = unit-inside s.coeffs q at in
        let lt : q < k = omega (arith, h.0.0.0) in
        let z : 0 + q ≡ q = omega arith in
        let found = get_elem-get_or_d none known q (omega arith) in
        let good' =
          set-IsGood padded k sl hp fits known 0 q s.payload good
            (unit_payload padded k sl hp fits s q h.0 at lt ∙ ap (chunk padded sl) (sym z)) in
        elim (Option-cases (get_or known q none)) [
          | inl free ↦
              let (parts, e, sorted, gains) =
                sort_layer-Sorts shards (set known q (some s.payload)) h.1 good'
                  (length-set known q (some s.payload) ∙ len) in
              (
                parts,
                rw unit (at_place s q known shards parts (some none) (found ∙ ap some free) e),
                sorted,
                record {
                  counts = omega (arith, gains.counts, count_known-set known q s.payload);
                  keeps = λ p f. gains.keeps p (Filled-set known q p s.payload f);
                  fills = λ p t i u. elim i [
                    | inl same ↦
                        let u' =
                          subst (λ (x : Shard). identity_index x.coeffs ≡ some p) (sym same) u in
                        let pq = some_cancel (sym unit ∙ u') in
                        subst (Filled parts.known) pq
                          (gains.keeps q (Filled-set_at known q s.payload (omega arith)))
                    | inr later ↦ gains.fills p t later u
                  ];
                },
              )
          | inr (c, taken) ↦
              let (parts, e, sorted, gains) = sort_layer-Sorts shards known h.1 good len in
              (
                parts,
                rw unit (at_place s q known shards parts (some (some c)) (found ∙ ap some taken) e),
                sorted,
                record {
                  counts = omega (arith, gains.counts);
                  keeps = gains.keeps;
                  fills = λ p t i u. elim i [
                    | inl same ↦
                        let u' =
                          subst (λ (x : Shard). identity_index x.coeffs ≡ some p) (sym same) u in
                        let pq = some_cancel (sym unit ∙ u') in
                        let filled : Filled known q = ap is_none taken in
                        subst (Filled parts.known) pq (gains.keeps q filled)
                    | inr later ↦ gains.fills p t later u
                  ];
                },
              )
        ]
  ]
