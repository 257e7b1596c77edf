-- ===== src/Storage/Crash.antt =====
-- The writes of crates/holofs-storage/src/node_service.rs are atomic: whenever the process stops, a shard file is
-- whole or was not touched.
use holofs.Prelude.{
  ℕ, zero, suc, ◌≡◌, ◌≢◌, ◌⊎◌, inl, inr, refl, sym, ap, ◌∙◌, Bool-cases, List, [], ◌∷◌, ◌++◌, ◌+◌,
  ◌-◌, ◌≤◌, min, none, append_assoc, append-nil, map, some, length, length-append, take,
  if◌then◌else◌, not, arith,
}
use holofs.Shard.{Shard}
use holofs.Merkle.{Hash}
use holofs.Storage.HashMap.{
  find, insert, retain, beq_apart, beq_self, find-insert, find-insert_self, find-insert_other,
  find-retain,
}
use holofs.Storage.Files.{
  Key, FilePath, path_keyed, path_beq, path_beq_iff, Disk, FileOp, write, rename, remove_file,
  apply_op, apply_ops, tmp_extension, shard_path, tmp_path, file_bytes, shard_file_ops,
  write_shard_file,
}

apply_ops-append :
    (xs ys : List FileOp) (d : Disk) → apply_ops (xs ++ ys) d ≡ apply_ops ys (apply_ops xs d)
unfolding apply_ops
apply_ops-append [] ys d = refl
apply_ops-append (x ∷ xs) ys d = apply_ops-append xs ys (apply_op x d)

write_one :
    (p : FilePath) (b : ℕ) (c : List ℕ) (d : Disk)
    → find p d ≡ some c
    → apply_op (write p b) d ≡ insert p (c ++ b ∷ []) d
unfolding apply_op
write_one p b c d e = rw (e, apply_op) refl

-- The bytes of a file that exists are added at its end, and no other file changes.
write_all :
    (p q : FilePath) (bs c : List ℕ) (d : Disk)
    → find p d ≡ some c
    → find q (apply_ops (map (write p) bs) d) ≡ (if path_beq p q then some (c ++ bs) else find q d)
unfolding apply_ops
write_all p q [] c d e = elim (Bool-cases (path_beq p q)) [
  | inl t ↦
      let same = (path_beq_iff p q).0 t in
      rw t (ap (λ x. find x d) (sym same) ∙ e ∙ ap some (sym (append-nil c)))
  | inr f ↦ rw f refl
]
write_all p q (b ∷ bs) c d e =
    ap (λ x. find q (apply_ops (map (write p) bs) x)) (write_one p b c d e)
    ∙ (write_all p q bs (c ++ b ∷ []) (insert p (c ++ b ∷ []) d)
          (find-insert_self p (c ++ b ∷ []) d)
        ∙ rw (append_assoc c (b ∷ []) bs) (elim (Bool-cases (path_beq p q)) [
          | inl t ↦ rw t refl
          | inr f ↦ rw f (find-insert q p (c ++ b ∷ []) d ∙ rw f refl)
        ]))

tmp_apart : (h : Hash) → tmp_path h ≢ shard_path h
unfolding tmp_path
tmp_apart h e =
    let file = (shard_path h).1 in
    let len = ap length (ap (λ (p : FilePath). p.1) e) in
    omega (arith, length-append file tmp_extension)

module _ (k : Key) (h : Hash) (s : Shard) (d : Disk) where
  abbrev tmp : FilePath
  tmp = tmp_path h

  abbrev target : FilePath
  target = shard_path h

  abbrev bytes : List ℕ
  bytes = file_bytes k s

  -- No file but the temporary one is touched.
  abbrev pub Untouched : Disk → Type 0
  Untouched d' = (q : FilePath) → q ≢ tmp_path h → find q d' ≡ find q d

  -- The shard file is whole, and no other file but the temporary one is touched.
  abbrev pub Written : Disk → Type 0
  Written d' =
      (q : FilePath)
      → q ≢ tmp_path h
      → find q d' ≡ (if path_beq (shard_path h) q then some (file_bytes k s) else find q d)

  abbrev started : Disk
  started = insert tmp [] d

  partly : (bs : List ℕ) → Untouched (apply_ops (map (write tmp) bs) started)
  partly bs q ne =
      write_all tmp q bs [] started (find-insert_self tmp [] d)
      ∙ rw (beq_apart tmp q (λ e. ne (sym e))) (find-insert_other q tmp [] d (λ e. ne (sym e)))

  wholly : Written (apply_op (rename tmp target) (apply_ops (map (write tmp) bytes) started))
  unfolding apply_op remove_file
  wholly q ne =
      let mid = apply_ops (map (write tmp) bytes) started in
      let there : find tmp mid ≡ some bytes =
        write_all tmp tmp bytes [] started (find-insert_self tmp [] d) ∙ rw (beq_self tmp) refl in
      rw (there, apply_op)
        (find-insert q target bytes (retain (λ p. not (path_beq tmp p)) mid)
          ∙ elim (Bool-cases (path_beq target q)) [
            | inl t ↦ rw t refl
            | inr f ↦ rw f (
                find-retain q (λ p. not (path_beq tmp p)) mid
                ∙ rw (beq_apart tmp q (λ e. ne (sym e))) (partly bytes q ne))
          ])

  take-map :
      (n : ℕ) (bs : List ℕ) (last : FileOp)
      → (take n (map (write tmp) bs ++ last ∷ []) ≡ map (write tmp) (take n bs))
        ⊎ (take n (map (write tmp) bs ++ last ∷ []) ≡ map (write tmp) bs ++ last ∷ [])
  take-map zero bs last = inl refl
  take-map (suc n) [] last = inr (ap (λ t. last ∷ t) (no_more n))
    where
      no_more : (n : ℕ) → ◌≡◌ {A = List FileOp} (take n []) []
      no_more zero = refl
      no_more (suc n) = refl
  take-map (suc n) (b ∷ bs) last = elim (take-map n bs last) [
    | inl e ↦ inl (ap (λ t. write tmp b ∷ t) e)
    | inr e ↦ inr (ap (λ t. write tmp b ∷ t) e)
  ]

  take-short :
      (n : ℕ) (bs : List ℕ) (last : FileOp)
      → n ≤ length bs
      → take n (map (write tmp) bs ++ last ∷ []) ≡ map (write tmp) (take n bs)
  take-short zero bs last h = refl
  take-short (suc n) [] last h = absurd (omega arith)
  take-short (suc n) (b ∷ bs) last h =
      ap (λ t. write tmp b ∷ t) (take-short n bs last (omega arith))

  length-map : (bs : List ℕ) → length (map (write tmp) bs) ≡ length bs
  length-map [] = refl
  length-map (b ∷ bs) = ap suc (length-map bs)

  pub write_shard_file-Written : Written (write_shard_file none k h s d).0
  unfolding write_shard_file shard_file_ops apply_ops apply_op
  write_shard_file-Written q ne =
      ap (find q) (apply_ops-append (map (write tmp) bytes) (rename tmp target ∷ []) started)
      ∙ wholly q ne

  Untouched-to :
      (n : ℕ) → n ≤ length bytes + 1 → Untouched (apply_ops (take n (shard_file_ops k h s)) d)
  unfolding shard_file_ops apply_ops apply_op
  Untouched-to zero le q ne = refl
  Untouched-to (suc n) le q ne =
      ap (λ ops. find q (apply_ops ops started))
        (take-short n bytes (rename tmp target) (omega arith))
      ∙ partly (take n bytes) q ne

  length-shard_file_ops : length (shard_file_ops k h s) ≡ length bytes + 2
  unfolding shard_file_ops
  length-shard_file_ops =
      omega
        (arith, length-append (map (write tmp) bytes) (rename tmp target ∷ []), length-map bytes)

  pub write_shard_file-Untouched : (n : ℕ) → Untouched (write_shard_file (some n) k h s d).0
  unfolding write_shard_file
  write_shard_file-Untouched n =
      let len = length-shard_file_ops in
      Untouched-to (min n (length (shard_file_ops k h s) - 1)) (omega arith)

  -- Crash safety: if the process stops after any number of the operations that write a shard file, then
  -- either no file but the temporary one was touched, or the file of the shard is whole and no other file but
  -- the temporary one was touched.
  pub shard_file_ops-atomic :
      (n : ℕ)
      → Untouched (apply_ops (take n (shard_file_ops k h s)) d)
        ⊎ Written (apply_ops (take n (shard_file_ops k h s)) d)
  unfolding shard_file_ops apply_ops apply_op
  shard_file_ops-atomic zero = inl (λ q ne. refl)
  shard_file_ops-atomic (suc n) = elim (take-map n bytes (rename tmp target)) [
    | inl e ↦
        inl (λ q ne. ap (λ ops. find q (apply_ops ops started)) e ∙ partly (take n bytes) q ne)
    | inr e ↦ inr (λ q ne.
        ap (λ ops. find q (apply_ops ops started)) e
        ∙ ap (find q) (apply_ops-append (map (write tmp) bytes) (rename tmp target ∷ []) started)
        ∙ wholly q ne)
  ]
