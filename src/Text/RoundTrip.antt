-- ===== src/Text/RoundTrip.antt =====
-- A text of crates/holofs-codec/src/text_codec.rs whose chunks are all read comes back.
use holofs.Prelude.{
  ℕ, zero, suc, ◌+◌, ◌-◌, ◌*◌, ◌%◌, ◌^◌, ◌<◌, ◌≤◌, ◌≡◌, refl, sym, ap, ◌∙◌, subst, max, min, List,
  [], ◌∷◌, ◌++◌, append_assoc, map, Option, some, length, length-append, All, take, drop,
  take-append, drop-append, get_elem?, replicate, flat_map, arith,
}
use holofs.Rlnc.Encode.{default_k, chunk}
use holofs.Text.{
  longest, pad, TextSplit, split_text_into_k_chunks, real_length, assemble_from,
  assemble_text_with_holes,
}
use holofs.Text.Slices.{joined, all_slices}

get_elem?-append : (xs ys : List ℕ) → get_elem? (xs ++ ys) (length xs) ≡ get_elem? ys 0
get_elem?-append [] ys = refl
get_elem?-append (x ∷ xs) ys = get_elem?-append xs ys

take_front : (n : ℕ) (xs ys : List ℕ) → length xs ≡ n → take n (xs ++ ys) ≡ xs
take_front n xs ys h = subst (λ m. take m (xs ++ ys) ≡ xs) h (take-append xs ys)

drop_front : (n : ℕ) (xs ys : List ℕ) → length xs ≡ n → drop n (xs ++ ys) ≡ ys
drop_front n xs ys h = subst (λ m. drop m (xs ++ ys) ≡ ys) h (drop-append xs ys)

length-replicate : (n : ℕ) → length {A = ℕ} (replicate n 0) ≡ n
length-replicate zero = refl
length-replicate (suc n) = ap suc (length-replicate n)

length-pad : (sym_len : ℕ) (c : List ℕ) → length c ≤ sym_len → length (pad sym_len c) ≡ sym_len
unfolding pad
length-pad sym_len c h = omega (
  arith,
  length-append c (replicate (sym_len - length c) 0),
  length-replicate (sym_len - length c),
)

-- The chunks from the `i`-th on, all read.
unfoldable pub all_read : List ℕ → ℕ → ℕ → ℕ → List (Option (List ℕ))
all_read padded sym_len i zero = []
all_read padded sym_len i (suc n) =
    some (chunk padded sym_len i) ∷ all_read padded sym_len (i + 1) n

Short : ℕ → List (List ℕ) → Type 0
Short sym_len cs = All (λ c. (length c ≤ sym_len) × (length c < 2 ^ 32)) cs

-- What is assembled of the chunks behind `front`, with the lengths behind `lens`.
assembled :
    (sym_len i : ℕ) (front lens : List ℕ) (cs : List (List ℕ))
    → length front ≡ i * sym_len
    → length lens ≡ i
    → Short sym_len cs
    → assemble_from i
        (all_read (front ++ flat_map (pad sym_len) cs) sym_len i (length cs))
        (lens ++ map (λ c. length c % 2 ^ 32) cs)
      ≡ (joined cs, 0)
unfolding assemble_from all_read real_length chunk Short
assembled sym_len i front lens [] hf hl short = refl
assembled sym_len i front lens (c ∷ cs) hf hl short =
    let rest = flat_map (pad sym_len) cs in
    let padded = front ++ (pad sym_len c ++ rest) in
    let more = map (λ d. length d % 2 ^ 32) cs in
    let whole = length-pad sym_len c short.0.0 in
    let this : take sym_len (drop (i * sym_len) padded) ≡ pad sym_len c =
      ap (take sym_len) (drop_front (i * sym_len) front (pad sym_len c ++ rest) hf)
      ∙ take_front sym_len (pad sym_len c) rest whole in
    let len : get_elem? (lens ++ length c % 2 ^ 32 ∷ more) i ≡ some (length c) =
      subst (λ m. get_elem? (lens ++ length c % 2 ^ 32 ∷ more) m ≡ some (length c % 2 ^ 32)) hl
        (get_elem?-append lens (length c % 2 ^ 32 ∷ more))
      ∙ ap some (omega (arith, short.0.1)) in
    let cut : take (min (length c) (length (pad sym_len c))) (pad sym_len c) ≡ c =
      unfold pad in
      take_front (min (length c) (length (pad sym_len c))) c (replicate (sym_len - length c) 0)
        (omega (arith, whole, short.0.0)) in
    let next : (i + 1) * sym_len ≡ i * sym_len + sym_len = grind arith in
    let ih =
      assembled sym_len (i + 1) (front ++ pad sym_len c) (lens ++ length c % 2 ^ 32 ∷ []) cs
        (omega (arith, length-append front (pad sym_len c)))
        (omega (arith, length-append lens (length c % 2 ^ 32 ∷ []))) short.1 in
    let same = append_assoc front (pad sym_len c) rest in
    let same' = append_assoc lens (length c % 2 ^ 32 ∷ []) more in
    let ih' =
      subst
        (λ (p : List ℕ × List ℕ).
          assemble_from (i + 1) (all_read p.0 sym_len (i + 1) (length cs)) p.1 ≡ (joined cs, 0))
        (λ j. (same j, same' j)) ih in
    rw (this, len, cut) (ap (λ (r : List ℕ × ℕ). (c ++ r.0, r.1)) ih')

-- No chunk is longer than the longest, nor than the text.
longest-Short :
    (sym_len : ℕ) (cs : List (List ℕ))
    → longest cs ≤ sym_len
    → length (joined cs) < 2 ^ 32
    → Short sym_len cs
unfolding longest Short
longest-Short sym_len [] h small = tt
longest-Short sym_len (c ∷ cs) h small =
    let all = length-append c (joined cs) in
    ((omega arith, omega arith), longest-Short sym_len cs (omega arith) (omega arith))

-- A text is split without a panic, and when all the chunks of the padded layer are read, their text is the text,
-- without holes. The text is shorter than 4 GiB.
pub assemble-split_text :
    (bytes : List ℕ)
    → length bytes < 2 ^ 32
    → (t : TextSplit) × (split_text_into_k_chunks bytes ≡ some t)
      × (assemble_text_with_holes (all_read t.padded t.sym_len 0 default_k) t.chunk_lens
          ≡ (bytes, 0))
unfolding split_text_into_k_chunks assemble_text_with_holes
assemble-split_text bytes small =
    let (cs, e, whole, count) = all_slices bytes (default_k - 1) 1 0 (omega arith) (omega arith) in
    let sym_len = max (longest cs) 1 in
    let short =
      longest-Short sym_len cs (omega arith) (subst (λ t. length t < 2 ^ 32) (sym whole) small) in
    let back = assembled sym_len 0 [] [] cs (omega arith) refl short in
    (
      record {
        padded = flat_map (pad sym_len) cs;
        sym_len = sym_len;
        chunk_lens = map (λ c. length c % 2 ^ 32) cs;
      },
      rw (e, split_text_into_k_chunks) refl,
      subst
            (λ n.
              assemble_from 0 (all_read (flat_map (pad sym_len) cs) sym_len 0 n)
                (map (λ c. length c % 2 ^ 32) cs)
              ≡ (joined cs, 0))
            count back
          ∙ ap (λ t. (t, 0)) whole,
    )
