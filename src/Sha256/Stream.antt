-- ===== src/Sha256/Stream.antt =====
-- Hashing in pieces with crates/holofs-core/src/hash.rs is hashing the whole.
use holofs.Prelude.{
  ℕ, zero, suc, ◌+◌, ◌-◌, ◌%◌, ◌^◌, ◌<◌, ◌≤◌, ◌≡◌, inl, inr, refl, sym, ap, ◌∙◌, subst, min, false,
  List, [], ◌∷◌, ◌++◌, length, set, take, drop, length-take, length-drop, length-append,
  take-append-drop, ◌==◌, ==_iff, Bool-cases, arith,
}
use holofs.Sha256.{Sha256, copy_at, flush, absorb, update}

-- One more byte in the buffer.
unfoldable feed : Sha256 → ℕ → Sha256
feed s b = flush (record {
  h = s.h;
  buf = set s.buf s.buf_len b;
  buf_len = s.buf_len + 1;
  total_len = s.total_len;
})

unfoldable feed_all : Sha256 → List ℕ → Sha256
feed_all s [] = s
feed_all s (b ∷ bs) = feed_all (feed s b) bs

abbrev with_total : ℕ → Sha256 → Sha256
with_total t s = record { h = s.h; buf = s.buf; buf_len = s.buf_len; total_len = t }

-- The state with the bytes copied into the buffer and not yet processed.
abbrev filled : Sha256 → List ℕ → Sha256
filled s bs = record {
  h = s.h;
  buf = copy_at s.buf_len bs s.buf;
  buf_len = s.buf_len + length bs;
  total_len = s.total_len;
}

flush-room : (s : Sha256) → s.buf_len < 64 → flush s ≡ s
unfolding flush
flush-room s h = elim (Bool-cases (s.buf_len == 64)) [
  | inl t ↦ let e = (==_iff s.buf_len 64).0 t in absurd (omega arith)
  | inr f ↦ rw f refl
]

below_full : (n : ℕ) → n ≤ 64 → (n == 64) ≡ false → n < 64
below_full n h f = ground arith

flush-below : (s : Sha256) → s.buf_len ≤ 64 → (flush s).buf_len < 64
unfolding flush
flush-below s h = elim (Bool-cases (s.buf_len == 64)) [
  | inl t ↦ rw t (omega arith)
  | inr f ↦ rw f (below_full s.buf_len h f)
]

flush-with_total : (t : ℕ) (s : Sha256) → flush (with_total t s) ≡ with_total t (flush s)
unfolding flush
flush-with_total t s = elim (Bool-cases (s.buf_len == 64)) [ inl e ↦ rw e refl | inr e ↦ rw e refl ]

feed-below : (s : Sha256) (b : ℕ) → s.buf_len < 64 → (feed s b).buf_len < 64
unfolding feed
feed-below s b h = flush-below _ (omega arith)

feed_all-below : (bs : List ℕ) (s : Sha256) → s.buf_len < 64 → (feed_all s bs).buf_len < 64
unfolding feed_all
feed_all-below [] s h = h
feed_all-below (b ∷ bs) s h = feed_all-below bs (feed s b) (feed-below s b h)

feed_all-append :
    (xs ys : List ℕ) (s : Sha256) → feed_all s (xs ++ ys) ≡ feed_all (feed_all s xs) ys
unfolding feed_all
feed_all-append [] ys s = refl
feed_all-append (x ∷ xs) ys s = feed_all-append xs ys (feed s x)

feed_all-with_total :
    (t : ℕ) (bs : List ℕ) (s : Sha256) → feed_all (with_total t s) bs ≡ with_total t (feed_all s bs)
unfolding feed_all feed
feed_all-with_total t [] s = refl
feed_all-with_total t (b ∷ bs) s =
    ap (λ r. feed_all r bs) (flush-with_total t _) ∙ feed_all-with_total t bs (feed s b)

-- Bytes that fit in the buffer, copied at once or one by one.
feed_all-filled :
    (b : ℕ) (bs : List ℕ) (s : Sha256)
    → s.buf_len + length (b ∷ bs) ≤ 64
    → feed_all s (b ∷ bs) ≡ flush (filled s (b ∷ bs))
unfolding feed_all feed copy_at
feed_all-filled b [] s h = refl
feed_all-filled b (c ∷ bs) s h =
    let next : Sha256 = record {
      h = s.h;
      buf = set s.buf s.buf_len b;
      buf_len = s.buf_len + 1;
      total_len = s.total_len;
    } in
    let len : s.buf_len + 1 + length (c ∷ bs) ≡ s.buf_len + length (b ∷ c ∷ bs) = omega arith in
    ap (λ r. feed_all r (c ∷ bs)) (flush-room next (omega arith))
    ∙ feed_all-filled c bs next (omega arith)
    ∙ ap
        (λ n. flush (record {
          h = s.h;
          buf = copy_at (s.buf_len + 1) (c ∷ bs) (set s.buf s.buf_len b);
          buf_len = n;
          total_len = s.total_len;
        }))
        len

-- One round of `update`: `k + 1` bytes go into the buffer.
round_filled :
    (k b : ℕ) (bs : List ℕ) (s : Sha256)
    → s.buf_len + suc k ≤ 64
    → k ≤ length bs
    → feed_all s (b ∷ take k bs)
      ≡ flush (record {
        h = s.h;
        buf = copy_at s.buf_len (b ∷ take k bs) s.buf;
        buf_len = s.buf_len + suc k;
        total_len = s.total_len;
      })
round_filled k b bs s room enough =
    let len : s.buf_len + length (b ∷ take k bs) ≡ s.buf_len + suc k =
      omega (arith, length-take k bs) in
    feed_all-filled b (take k bs) s (omega arith)
    ∙ ap
        (λ n. flush (record {
          h = s.h;
          buf = copy_at s.buf_len (b ∷ take k bs) s.buf;
          buf_len = n;
          total_len = s.total_len;
        }))
        len

absorb-feed_all :
    (n : ℕ) (bs : List ℕ) (s : Sha256)
    → length bs ≤ n
    → s.buf_len < 64
    → absorb n bs s ≡ feed_all s bs
unfolding absorb feed_all
absorb-feed_all zero [] s h r = refl
absorb-feed_all zero (b ∷ bs) s h r = absurd (omega arith)
absorb-feed_all (suc n) [] s h r = refl
absorb-feed_all (suc n) (b ∷ bs) s h r =
    let amount = min (64 - s.buf_len) (length (b ∷ bs)) in
    let k = amount - 1 in
    let positive : suc k ≡ amount = omega arith in
    let rest =
      absorb-feed_all n (drop k bs) (feed_all s (b ∷ take k bs)) (omega (arith, length-drop k bs))
        (feed_all-below (b ∷ take k bs) s r) in
    subst
      (λ a.
        absorb n (drop a (b ∷ bs)) (
          flush (record {
            h = s.h;
            buf = copy_at s.buf_len (take a (b ∷ bs)) s.buf;
            buf_len = s.buf_len + a;
            total_len = s.total_len;
          }))
        ≡ feed_all s (b ∷ bs))
      positive
      (ap (absorb n (drop k bs)) (sym (round_filled k b bs s (omega arith) (omega arith)))
        ∙ rest
        ∙ sym (feed_all-append (b ∷ take k bs) (drop k bs) s)
        ∙ ap (λ t. feed_all s (b ∷ t)) (take-append-drop k bs))

update-feed_all :
    (s : Sha256) (bs : List ℕ)
    → s.buf_len < 64
    → update s bs ≡ feed_all (with_total ((s.total_len + length bs) % 2 ^ 64) s) bs
unfolding update
update-feed_all s bs r = absorb-feed_all (length bs) bs _ (omega arith) r

-- Hashing in pieces: when the buffer of the hasher is not full, feeding it two byte strings one after the
-- other leaves it in the state that feeding it their concatenation does.
pub update-append :
    (s : Sha256) (xs ys : List ℕ) → s.buf_len < 64 → update (update s xs) ys ≡ update s (xs ++ ys)
update-append s xs ys r =
    let t = (s.total_len + length xs) % 2 ^ 64 in
    let u = (t + length ys) % 2 ^ 64 in
    let mid = feed_all (with_total t s) xs in
    let below = feed_all-below xs (with_total t s) r in
    let total : (mid.total_len + length ys) % 2 ^ 64 ≡ u =
      ap (λ q. (q.total_len + length ys) % 2 ^ 64) (feed_all-with_total t xs s) in
    let same : u ≡ (s.total_len + length (xs ++ ys)) % 2 ^ 64 =
      omega (arith, length-append xs ys) in
    ap (λ q. update q ys) (update-feed_all s xs r)
    ∙ update-feed_all mid ys below
    ∙ ap (λ q. feed_all (with_total q mid) ys) total
    ∙ ap (λ q. feed_all (with_total u q) ys) (feed_all-with_total t xs s)
    ∙ ap (λ q. feed_all q ys) (sym (feed_all-with_total u xs s))
    ∙ sym (feed_all-append xs ys (with_total u s))
    ∙ ap (λ q. feed_all (with_total q s) (xs ++ ys)) same
    ∙ sym (update-feed_all s (xs ++ ys) r)
