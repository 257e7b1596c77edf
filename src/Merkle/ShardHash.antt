-- ===== src/Merkle/ShardHash.antt =====
-- The hash of a shard in crates/holofs-core/src/merkle.rs as that of one message.
use holofs.Prelude.{
  ℕ, ◌%◌, ◌^◌, ◌<◌, ◌≡◌, ◌≢◌, ◌⊎◌, inl, inr, refl, sym, ap, ap₂, ◌∙◌, List, [], ◌∷◌, ◌++◌, ◌<>◌,
  append_assoc, length, list_eq, list_eq_iff, Bool-cases, arith,
}
use holofs.Shard.{Shard}
use holofs.Codec.Bytes.{to_be_bytes, from_be_bytes, length-to_be_bytes, from_be_bytes-to_be_bytes}
use holofs.Sha256.{new, update, finalize, sha256}
use holofs.Sha256.Stream.{update-append}
use holofs.Merkle.{tag_shard, shard_hash}

-- The bytes that are hashed for a shard.
unfoldable pub message : Shard → List ℕ
message s =
    tag_shard
    <> to_be_bytes 2 (length s.coeffs % 2 ^ 16)
    <> to_be_bytes 4 (length s.payload % 2 ^ 32)
    <> s.coeffs
    <> s.payload

started : (xs ys : List ℕ) → update (update new xs) ys ≡ update new (xs ++ ys)
unfolding new
started xs ys = update-append new xs ys (omega arith)

regroup : (a b c d e : List ℕ) → (((a ++ b) ++ c) ++ d) ++ e ≡ a ++ (b ++ (c ++ (d ++ e)))
regroup a b c d e = simp append_assoc

-- The hash of a shard is the SHA-256 hash of one message.
pub shard_hash-message : (s : Shard) → shard_hash s ≡ sha256 (message s)
unfolding shard_hash message sha256
shard_hash-message s =
    let b = to_be_bytes 2 (length s.coeffs % 2 ^ 16) in
    let c = to_be_bytes 4 (length s.payload % 2 ^ 32) in
    let d = s.coeffs in
    let e = s.payload in
    ap finalize (
      ap (λ t. update (update (update t c) d) e) (started tag_shard b)
      ∙ ap (λ t. update (update t d) e) (started (tag_shard ++ b) c)
      ∙ ap (λ t. update t e) (started ((tag_shard ++ b) ++ c) d)
      ∙ started (((tag_shard ++ b) ++ c) ++ d) e
      ∙ ap (update new) (regroup tag_shard b c d e))

heads : {x y : ℕ} {xs ys : List ℕ} → x ∷ xs ≡ y ∷ ys → (x ≡ y) × (xs ≡ ys)
heads e = (cc, cc)

split : (xs ys us vs : List ℕ) → length xs ≡ length ys → xs ++ us ≡ ys ++ vs → (xs ≡ ys) × (us ≡ vs)
split [] [] us vs h e = (refl, e)
split [] (y ∷ ys) us vs h e = absurd (omega arith)
split (x ∷ xs) [] us vs h e = absurd (omega arith)
split (x ∷ xs) (y ∷ ys) us vs h e =
    let (first, rest) = heads e in
    let (more, last) = split xs ys us vs (omega arith) rest in (ap₂ (λ a t. a ∷ t) first more, last)

same_length : (w x y : ℕ) → x < 256 ^ w → y < 256 ^ w → to_be_bytes w x ≡ to_be_bytes w y → x ≡ y
same_length w x y hx hy e =
    sym (from_be_bytes-to_be_bytes w x hx) ∙ ap from_be_bytes e ∙ from_be_bytes-to_be_bytes w y hy

-- The lengths fit their fields.
pub record IsShort (s : Shard) : Type 0 where
  pub coeffs_fit : length s.coeffs < 2 ^ 16
  pub payload_fits : length s.payload < 2 ^ 32

message-injective : (s t : Shard) → IsShort s → IsShort t → message s ≡ message t → s ≡ t
unfolding message
message-injective s t hs ht e =
    let b = λ (u : Shard). to_be_bytes 2 (length u.coeffs % 2 ^ 16) in
    let c = λ (u : Shard). to_be_bytes 4 (length u.payload % 2 ^ 32) in
    let tail = (split tag_shard tag_shard _ _ refl e).1 in
    let (eb, tail) =
      split (b s) (b t) _ _
        (length-to_be_bytes 2 (length s.coeffs % 2 ^ 16)
          ∙ sym (length-to_be_bytes 2 (length t.coeffs % 2 ^ 16)))
        tail in
    let (ec, tail) =
      split (c s) (c t) _ _
        (length-to_be_bytes 4 (length s.payload % 2 ^ 32)
          ∙ sym (length-to_be_bytes 4 (length t.payload % 2 ^ 32)))
        tail in
    let fs = hs.coeffs_fit in
    let ft = ht.coeffs_fit in
    let len =
      same_length 2 (length s.coeffs % 2 ^ 16) (length t.coeffs % 2 ^ 16) (omega arith)
        (omega arith) eb in
    let (ed, ee) = split s.coeffs t.coeffs _ _ (omega arith) tail in
    λ i. record { coeffs = ed i; payload = ee i }

-- Two shards whose lengths fit their fields and that have the same hash are the same, unless SHA-256 has a
-- collision at their two messages.
pub shard_hash-binds :
    (s t : Shard)
    → IsShort s
    → IsShort t
    → shard_hash s ≡ shard_hash t
    → (s ≡ t) ⊎ ((message s ≢ message t) × (sha256 (message s) ≡ sha256 (message t)))
shard_hash-binds s t hs ht e = elim (Bool-cases (list_eq (message s) (message t))) [
  | inl same ↦ inl (message-injective s t hs ht ((list_eq_iff (message s) (message t)).0 same))
  | inr f ↦ inr (
    λ h. let same = (list_eq_iff (message s) (message t)).1 h in cc,
    sym (shard_hash-message s) ∙ e ∙ shard_hash-message t,
  )
]
