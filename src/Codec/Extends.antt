-- ===== src/Codec/Extends.antt =====
-- `Extends p`: the bytes that follow change neither a successful read nor an error other than the
-- end of the buffer. So a reader that reads exactly `bs` reports the end on each proper prefix of it.
use holofs.Prelude.{
  ℕ, zero, suc, ◌≡◌, ◌≢◌, ◌⊎◌, inl, inr, refl, ap, ◌∙◌, Bool, true, false, if◌then◌else◌, List, [],
  ◌∷◌, ◌++◌, append-nil, arith, length-append, take_of_append, drop_of_append,
}
use holofs.Codec.Io.{Result, ok, err, map_ok, ErrorKind, unexpected_eof}
use holofs.Codec.Cursor.{
  Reader, continue, pure, fail, lift, ◌>>=◌, take, u8, u16, u32, u64, repeat, run,
}
use holofs.Codec.Reads.{Reads}

pub record Extends {ℓ} {A : Type ℓ} (p : Reader A) : Type ℓ where
  pub value :
      (bs : List ℕ) (a : A) (rest t : List ℕ)
      → p bs ≡ ok (a, rest)
      → p (bs ++ t) ≡ ok (a, rest ++ t)
  pub failure :
      (bs : List ℕ) (e : ErrorKind) (t : List ℕ)
      → p bs ≡ err e
      → (e ≡ unexpected_eof) ⊎ (p (bs ++ t) ≡ err e)

module _ {ℓ} {A : Type ℓ} where
  pub Extends-pure : (a : A) → Extends (pure a)
  unfolding pure
  Extends-pure a = record { value = λ bs x rest t h. cc; failure = λ bs e t h. cc }

  pub Extends-fail : (e : ErrorKind) → Extends (fail {A = A} e)
  unfolding fail
  Extends-fail e = record { value = λ bs x rest t h. cc; failure = λ bs k t h. inr (cc) }

  pub Extends-lift : (r : Result A) → Extends (lift r)
  unfolding lift
  Extends-lift (ok a) = record { value = λ bs x rest t h. cc; failure = λ bs k t h. cc }
  Extends-lift (err e) = record { value = λ bs x rest t h. cc; failure = λ bs k t h. inr (cc) }

  pub Extends-if :
      (b : Bool) (p q : Reader A) → Extends p → Extends q → Extends (if b then p else q)
  Extends-if true p q hp hq = hp
  Extends-if false p q hp hq = hq

module _ {ℓ κ} {A : Type ℓ} {B : Type κ} where
  module _ (p : Reader A) (f : A → Reader B) (ep : Extends p) (ef : (a : A) → Extends (f a)) where
    bind_value :
        (bs : List ℕ) (b : B) (rest t : List ℕ) (r : Result (A × List ℕ))
        → p bs ≡ r
        → continue r f ≡ ok (b, rest)
        → continue (p (bs ++ t)) f ≡ ok (b, rest ++ t)
    bind_value bs b rest t (ok (a, mid)) e h =
        ap (λ r. continue r f) (ep.value bs a mid t e) ∙ (ef a).value mid b rest t h
    bind_value bs b rest t (err k) e h = cc

    bind_failure :
        (bs : List ℕ) (k : ErrorKind) (t : List ℕ) (r : Result (A × List ℕ))
        → p bs ≡ r
        → continue r f ≡ err k
        → (k ≡ unexpected_eof) ⊎ (continue (p (bs ++ t)) f ≡ err k)
    bind_failure bs k t (ok (a, mid)) e h = elim ((ef a).failure mid k t h) [
      | inl eof ↦ inl eof
      | inr same ↦ inr (ap (λ r. continue r f) (ep.value bs a mid t e) ∙ same)
    ]
    bind_failure bs k t (err j) e h = elim (ep.failure bs j t e) [
      | inl eof ↦ inl (cc)
      | inr same ↦ inr (ap (λ r. continue r f) same ∙ h)
    ]

    pub Extends-bind : Extends (p >>= f)
    unfolding ◌>>=◌
    Extends-bind = record {
      value = λ bs b rest t h. bind_value bs b rest t (p bs) refl h;
      failure = λ bs k t h. bind_failure bs k t (p bs) refl h;
    }

pub Extends-take : (n : ℕ) → Extends (take n)
unfolding take
Extends-take n = record {
  value = λ bs a rest t h.
      ground (arith, length-append bs t, take_of_append n bs t, drop_of_append n bs t);
  failure = λ bs e t h. ground arith;
}

pub ruleset reader_rules =
    (Extends-pure, Extends-fail, Extends-lift, Extends-if, Extends-bind, Extends-take)

pub Extends-u8 : Extends u8
unfolding u8
Extends-u8 = search reader_rules

pub Extends-u16 : Extends u16
unfolding u16
Extends-u16 = search reader_rules

pub Extends-u32 : Extends u32
unfolding u32
Extends-u32 = search reader_rules

pub Extends-u64 : Extends u64
unfolding u64
Extends-u64 = search reader_rules

pub Extends-repeat {ℓ} : {A : Type ℓ} (n : ℕ) (p : Reader A) → Extends p → Extends (repeat n p)
unfolding repeat
Extends-repeat zero p h = Extends-pure []
Extends-repeat (suc n) p h =
    Extends-bind p _ h
      (λ x. Extends-bind (repeat n p) _ (Extends-repeat n p h) (λ xs. Extends-pure (x ∷ xs)))

pub ruleset extends_rules =
    (reader_rules, Extends-u8, Extends-u16, Extends-u32, Extends-u64, Extends-repeat)

append_eq_nil : (xs ys : List ℕ) → xs ++ ys ≡ [] → ys ≡ []
append_eq_nil [] ys h = h
append_eq_nil (x ∷ xs) ys h = cc

module _ {ℓ} {A : Type ℓ} {p : Reader A} {v : A} (ep : Extends p) (xs ys : List ℕ)
    (reads : Reads p v (xs ++ ys)) (more : ys ≢ []) where
  whole : p (xs ++ ys) ≡ ok (v, [])
  whole = rw (← append-nil (xs ++ ys)) (reads.at [])

  prefix_cases : (r : Result (A × List ℕ)) → p xs ≡ r → map_ok (λ t. t.0) r ≡ err unexpected_eof
  unfolding map_ok
  prefix_cases (ok (a, rest)) e =
      absurd (more (append_eq_nil rest ys (cc (ep.value xs a rest ys e, whole))))
  prefix_cases (err k) e = elim (ep.failure xs k ys e) [
    | inl eof ↦ cc
    | inr same ↦ cc (same, whole)
  ]

  -- A proper prefix of what was written is reported as truncated.
  pub run_prefix : run p xs ≡ err unexpected_eof
  unfolding run
  run_prefix = prefix_cases (p xs) refl
