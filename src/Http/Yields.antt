-- ===== src/Http/Yields.antt =====
-- What a successful call leaves: a rule for each way that steps are composed.
use integration_nfeio.Base.{Bool, true, false, ◌≡◌, refl, ap, if◌then◌else◌}
use integration_nfeio.Http.{Result, ok, err, World, M, after, ◌>>=◌, ◌>>◌}

module _ {S A B : Type 0} where
  -- Inversion of a successful step.
  pub after-ok :
      (k : A → M S B) (p : Result A × World S) {b : B}
      → (after k p).0 ≡ ok b
      → (a : A) × (v : World S) × (p ≡ (ok a, v)) × ((k a v).0 ≡ ok b) × ((after k p).1 ≡ (k a v).1)
  after-ok k (ok a, v) h = (a, v, refl, h, refl)
  after-ok k (err e, v) h = cc

-- Where the step succeeds, its result and the world after it satisfy `Q`.
pub record Yields {ℓ} {S A : Type 0} (Q : A → World S → Type ℓ) (m : M S A) : Type ℓ where
  pub run : (w : World S) (a : A) → (m w).0 ≡ ok a → Q a (m w).1

module _ {ℓ} {S B : Type 0} (Q : B → World S → Type ℓ) where
  yields_after :
      {A : Type 0} (k : A → M S B) (p : Result A × World S) (b : B)
      → ((a : A) (v : World S) → p ≡ (ok a, v) → (k a v).0 ≡ ok b → Q b (k a v).1)
      → (after k p).0 ≡ ok b
      → Q b (after k p).1
  yields_after k (ok a, v) b g h = g a v refl h
  yields_after k (err e, v) b g h = absurd (cc)

module _ {ℓ} {S B : Type 0} {Q : B → World S → Type ℓ} where
  -- What the first step yields may be used by the second.
  pub Yields-bind {κ} :
      {A : Type 0} {R : A → World S → Type κ} {a : M S A} (k : A → M S B)
      → Yields R a
      → ((x : A) (w : World S) (b : B) → R x w → (k x w).0 ≡ ok b → Q b (k x w).1)
      → Yields Q (a >>= k)
  Yields-bind {R} {a} k y g = record {
    run = λ w b.
        yields_after Q k (a w) b
          (λ x v e h. g x v b (rw (ap (λ p. p.1) e) at (y.run w x (ap (λ p. p.0) e))) h);
  }

  -- Nothing is asked of the first step.
  pub Yields-last :
      {A : Type 0} (a : M S A) {k : A → M S B} → ((x : A) → Yields Q (k x)) → Yields Q (a >>= k)
  Yields-last a {k} g = record {
    run = λ w b. yields_after Q k (a w) b (λ x v e h. (g x).run v b h);
  }

  pub Yields-then : (a : M S (Unit {0})) {k : M S B} → Yields Q k → Yields Q (a >> k)
  Yields-then a {k} g = record {
    run = λ w b. yields_after Q (λ _. k) (a w) b (λ x v e h. g.run v b h);
  }

  pub Yields-if :
      (b : Bool) {a c : M S B}
      → (b ≡ true → Yields Q a)
      → (b ≡ false → Yields Q c)
      → Yields Q (if b then a else c)
  Yields-if true f g = f refl
  Yields-if false f g = g refl

  pub Yields-fail : {e : Result B} → ((b : B) → e ≡ ok b → ⊥) → Yields Q (λ w. (e, w))
  Yields-fail f = record { run = λ w b h. absurd (f b h) }
