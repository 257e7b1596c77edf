-- ===== src/Rlnc/Assembled.antt =====
-- The decoder of crates/holofs-core/src/rlnc.rs as a whole: what it returns is the source.
use holofs.Prelude.{
  ℕ, zero, suc, ◌+◌, ◌-◌, ◌<◌, ◌≤◌, ◌≡◌, ◌⊎◌, inl, inr, refl, sym, ap, ◌∙◌, subst, List, [], ◌∷◌,
  ◌++◌, none, some, In, All, length, length-drop, length-replicate, drop, get_or, replicate, ltb,
  ◌==◌, ==_iff, Bool-cases, Option-cases, arith,
}
use holofs.Shard.{Shard}
use holofs.Gf.{new}
use holofs.Rlnc.Encode.{chunk}
use holofs.Rlnc.Gauss.{Rows, eliminate}
use holofs.Rlnc.Decode.{
  Decoded, undecodable, decoded, Known, Parts, count_known, unknown_from, position, assemble,
  sort_with_k, decode_parts, decode_layer_with_k,
}
use holofs.Rlnc.Linear.{IsByte, IsRow, get_or-IsByte}
use holofs.Rlnc.Pivot.{All-get_or}
use holofs.Rlnc.Annihilate.{Solves}
use holofs.Rlnc.Solve.{eliminate-Stage}
use holofs.Rlnc.Solution.{Holds, eliminate-solution}
use holofs.Rlnc.Encoder.{chunk-IsRow, Fits}
use holofs.Rlnc.Known.{dot-nil, list_ext, IsTrue, IsGood, AreSorted, sort_with_k-AreSorted}
use holofs.Rlnc.Reduction.{get_elem-get_or_d, unknown_values, build_rows-Holds}

position-In :
    (p : ℕ) (ps : List ℕ)
    → In p ps
    → (i : ℕ) × (position p ps ≡ some i) × (i < length ps) × (get_or ps i 0 ≡ p)
unfolding position
position-In p [] h = absurd h
position-In p (q ∷ ps) h = elim (Bool-cases (q == p)) [
  | inl t ↦ (0, rw t refl, omega arith, (==_iff q p).0 t)
  | inr f ↦ elim h [
    | inl e ↦ let t = (==_iff q p).1 e in cc
    | inr later ↦
        let (i, at, lt, e) = position-In p ps later in (suc i, rw f (rw at refl), omega arith, e)
  ]
]

get_or-unknown_values :
    (padded : List ℕ) (sl j i m : ℕ) (known : Known)
    → m < length (unknown_from i known)
    → get_or (unknown_values padded sl j i known) m 0
      ≡ get_or (chunk padded sl (get_or (unknown_from i known) m 0)) j 0
unfolding unknown_values unknown_from
get_or-unknown_values padded sl j i m [] h = absurd (omega arith)
get_or-unknown_values padded sl j i zero (none ∷ known) h = refl
get_or-unknown_values padded sl j i (suc m) (none ∷ known) h =
    get_or-unknown_values padded sl j (i + 1) m known (omega arith)
get_or-unknown_values padded sl j i m (some c ∷ known) h =
    get_or-unknown_values padded sl j (i + 1) m known h

length-unknown_values :
    (padded : List ℕ) (sl j i : ℕ) (known : Known)
    → length (unknown_values padded sl j i known) ≡ length (unknown_from i known)
unfolding unknown_values unknown_from
length-unknown_values padded sl j i [] = refl
length-unknown_values padded sl j i (none ∷ known) =
    ap suc (length-unknown_values padded sl j (i + 1) known)
length-unknown_values padded sl j i (some c ∷ known) =
    length-unknown_values padded sl j (i + 1) known

-- The chunks from the `i`-th on, `n` of them, one after the other.
unfoldable pub chunks : List ℕ → ℕ → ℕ → ℕ → List ℕ
chunks padded sl i zero = []
chunks padded sl i (suc n) = chunk padded sl i ++ chunks padded sl (i + 1) n

empty_In : (xs : List ℕ) (p : ℕ) → length xs ≡ 0 → In p xs → In p []
empty_In [] p e h = h
empty_In (x ∷ xs) p e h = absurd (omega arith)

unknown_from-count :
    (i : ℕ) (known : Known) → length (unknown_from i known) + count_known known ≡ length known
unfolding unknown_from count_known
unknown_from-count i [] = refl
unknown_from-count i (none ∷ known) = let e = unknown_from-count (i + 1) known in omega arith
unknown_from-count i (some c ∷ known) = let e = unknown_from-count (i + 1) known in omega arith

module _ (padded : List ℕ) (k sl : ℕ) (hp : All IsByte padded) (fits : Fits k sl padded) where
  -- The solved rows hold the chunks of the unknown positions.
  abbrev HasChunks : ℕ → List ℕ → Rows → Type 0
  HasChunks n unknown rows =
      (m : ℕ)
      → m < length unknown
      → (m < length rows) × (drop n (get_or rows m []) ≡ chunk padded sl (get_or unknown m 0))

  assemble-chunks :
      (n : ℕ) (unknown : List ℕ) (rows : Rows) (i : ℕ) (known : Known)
      → HasChunks n unknown rows
      → IsGood padded k sl hp fits i known
      → ((p : ℕ) → In p (unknown_from i known) → In p unknown)
      → assemble n unknown rows i known ≡ some (chunks padded sl i (length known))
  unfolding assemble chunks unknown_from
  assemble-chunks n unknown rows i [] has good sub = refl
  assemble-chunks n unknown rows i (some c ∷ known) has good sub =
      rw (assemble-chunks n unknown rows (i + 1) known has good.1 sub)
        (ap (λ t. some (t ++ chunks padded sl (i + 1) (length known))) good.0)
  assemble-chunks n unknown rows i (none ∷ known) has good sub =
      let (idx, at, lt, e) = position-In i unknown (sub i (inl refl)) in
      let (inside, payload) = has idx lt in
      rw at (
        rw (get_elem-get_or_d [] rows idx inside) (
          rw (assemble-chunks n unknown rows (i + 1) known has good (λ p h. sub p (inr h))) (
            ap (λ t. some (t ++ chunks padded sl (i + 1) (length known)))
              (payload ∙ ap (chunk padded sl) e))))

  unknown_values-IsByte :
      (j i : ℕ) (known : Known)
      → i + length known ≤ k
      → All IsByte (unknown_values padded sl j i known)
  unfolding unknown_values
  unknown_values-IsByte j i [] h = tt
  unknown_values-IsByte j i (none ∷ known) h = (
    get_or-IsByte (chunk padded sl i) j (chunk-IsRow padded sl i hp (fits i (omega arith))).1,
    unknown_values-IsByte j (i + 1) known (omega arith),
  )
  unknown_values-IsByte j i (some c ∷ known) h = unknown_values-IsByte j (i + 1) known (omega arith)

  unknown_from-below :
      (i m : ℕ) (known : Known)
      → i + length known ≤ k
      → m < length (unknown_from i known)
      → get_or (unknown_from i known) m 0 < k
  unfolding unknown_from
  unknown_from-below i m [] h b = absurd (omega arith)
  unknown_from-below i zero (none ∷ known) h b = omega arith
  unknown_from-below i (suc m) (none ∷ known) h b =
      unknown_from-below (i + 1) m known (omega arith) (omega arith)
  unknown_from-below i m (some c ∷ known) h b = unknown_from-below (i + 1) m known (omega arith) b

  module _ (known : Known) (good : IsGood padded k sl hp fits 0 known)
      (size : length known ≡ k) where
    abbrev unknown : List ℕ
    unknown = unknown_from 0 known

    rows_solve :
        (rows : Rows)
        → All (IsRow (length unknown + sl)) rows
        → All (Solves (length unknown + sl) []) rows
    rows_solve [] h = tt
    rows_solve (row ∷ rows) h = ((h.0, dot-nil row), rows_solve rows h.1)

    solved-HasChunks :
        (rows out : Rows)
        → All (IsRow (length unknown + sl)) rows
        → ((j : ℕ)
            → j < sl
            → All (Holds (length unknown) (unknown_values padded sl j 0 known) j) rows)
        → eliminate new 0 (length unknown) rows ≡ some out
        → HasChunks (length unknown) unknown out
    solved-HasChunks rows out isrow holds e m lt =
        let st =
          eliminate-Stage (length unknown + sl) [] tt (length unknown) 0 rows out
            (rows_solve rows isrow, (λ r c hr hc. absurd (omega arith)), omega arith) e in
        let inside : m < length out = omega (arith, st.2) in
        let row = All-get_or (Solves (length unknown + sl) []) out m [] st.0 inside in
        let c = chunk padded sl (get_or unknown m 0) in
        let crow =
          chunk-IsRow padded sl (get_or unknown m 0) hp
            (fits (get_or unknown m 0) (unknown_from-below 0 m known (omega arith) lt)) in
        (
          inside,
          list_ext (drop (length unknown) (get_or out m [])) c
              (omega (arith, length-drop (length unknown) (get_or out m []), row.0.0, crow.0))
              (λ j b.
                let b' : j < sl =
                  omega (arith, length-drop (length unknown) (get_or out m []), row.0.0) in
                eliminate-solution (length unknown) sl rows out (unknown_values padded sl j 0 known)
                  j m (length-unknown_values padded sl j 0 known)
                  (unknown_values-IsByte j 0 known (omega arith)) isrow b' (holds j b') e lt
                ∙ get_or-unknown_values padded sl j 0 m known lt),
        )

  -- Either no result, or the chunks of the source.
  abbrev pub Sound : Decoded → Type 0
  Sound d = (d ≡ undecodable) ⊎ (d ≡ decoded (chunks padded sl 0 k))

  pub decode_parts-Sound :
      (parts : Parts) → AreSorted padded k sl hp fits parts → Sound (decode_parts new k sl parts)
  unfolding decode_parts
  decode_parts-Sound parts (good, size, true_shards) =
      let known = parts.known in
      let unknown = unknown_from 0 known in
      let (rows, built_rows, isrow, holds) =
        build_rows-Holds padded k sl hp fits known good size parts.rlnc true_shards in
      let count = unknown_from-count 0 known in
      let nu : k - count_known known ≡ length unknown = omega arith in
      let whole : (n : ℕ) (us : List ℕ) (rs : Rows)
          → HasChunks n us rs
          → ((p : ℕ) → In p unknown → In p us)
          → assemble n us rs 0 known ≡ some (chunks padded sl 0 k) =
        λ n us rs has sub.
          assemble-chunks n us rs 0 known has good sub
          ∙ ap (λ l. some (chunks padded sl 0 l)) size in
      elim (Bool-cases (count_known known == k)) [
        | inl t ↦
            let all = (==_iff (count_known known) k).0 t in
            rw t (
              rw
                (whole 0 [] [] (λ m lt. absurd (omega arith))
                  (λ p h. empty_In unknown p (omega arith) h))
                (inr refl))
        | inr f ↦ rw f (elim (Bool-cases (ltb (length parts.rlnc) (k - count_known known))) [
          | inl few ↦ rw few (inl refl)
          | inr enough ↦ rw enough (
              rw built_rows (elim (Option-cases (eliminate new 0 (k - count_known known) rows)) [
                | inl singular ↦ rw singular (inl refl)
                | inr (out, found) ↦
                    let found' = subst (λ n. eliminate new 0 n rows ≡ some out) nu found in
                    let has = solved-HasChunks known good size rows out isrow holds found' in
                    rw found (
                      rw
                        (whole (k - count_known known) unknown out
                          (λ m lt.
                            subst
                              (λ n.
                                (m < length out)
                                × (drop n (get_or out m []) ≡ chunk padded sl (get_or unknown m 0)))
                              (sym nu) (has m lt))
                          (λ p h. h))
                        (inr refl))
              ]))
        ])
      ]

  pub none-IsGood : (n i : ℕ) → IsGood padded k sl hp fits i (replicate n none)
  none-IsGood zero i = tt
  none-IsGood (suc n) i = none-IsGood n (i + 1)

  -- The decoder never hands out wrong data and never panics on true shards: for the bytes of `k` chunks of
  -- `sl` bytes, and any shards, in any number and order, that are the combinations of these chunks that
  -- their coefficients say, the result is either that the layer is undecodable or all of the chunks.
  pub decode_layer_with_k-Sound :
      (shards : List Shard)
      → All (IsTrue padded k sl hp fits) shards
      → Sound (decode_layer_with_k new shards k sl)
  unfolding decode_layer_with_k
  decode_layer_with_k-Sound shards h = elim (Bool-cases (ltb (length shards) k)) [
    | inl few ↦ rw few (inl refl)
    | inr enough ↦ rw enough (
        decode_parts-Sound (sort_with_k k (replicate k none) shards) (
          sort_with_k-AreSorted padded k sl hp fits shards (replicate k none) h (none-IsGood k 0)
            (length-replicate k none)))
  ]
