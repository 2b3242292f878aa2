-- ===== src/Exec/Safe.antt =====
-- Code without faults: a computation throws no exception, and has undefined behaviour only where a
-- proposition allows it. That it ends is left to total correctness.
use libdoip.Base.{
  ◌≡◌, refl, Bool, true, false, Option, none, some, ◌⊎◌, inl, inr, arith, if◌then◌else◌,
}
use libdoip.Exec.{M, Outcome, returns, throws, undefined, diverges, lift, ◌>>=◌}
use libdoip.Exec.Total.{Total, Anything}

abbrev pub Safe : {A S : Type 0} → Type 0 → (A → S → Type 0) → Outcome (A × S) → Type 0
Safe U P (returns (a, s)) = P a s
Safe U P (throws e) = ⊥
Safe U P undefined = U
Safe U P diverges = Unit

-- The same for code that ends.
abbrev pub Returns : {A S : Type 0} → Type 0 → (A → S → Type 0) → Outcome (A × S) → Type 0
Returns U P (returns (a, s)) = P a s
Returns U P (throws e) = ⊥
Returns U P undefined = U
Returns U P diverges = ⊥

-- A computation without faults from a state.
abbrev pub Faultless : {A S : Type 0} → Type 0 → Outcome (A × S) → Type 0
Faultless U o = Safe U Anything o

module _ (U : Type 0) {A S : Type 0} (P Q : A → S → Type 0) where
  pub Safe-mono :
      (o : Outcome (A × S)) → ((a : A) (t : S) → P a t → Q a t) → Safe U P o → Safe U Q o
  Safe-mono (returns (a, s)) f h = f a s h
  Safe-mono (throws e) f h = h
  Safe-mono undefined f h = h
  Safe-mono diverges f h = h

  -- What total correctness shows of what is returned.
  pub Safe-both : (o : Outcome (A × S)) → Total P o → Safe U Q o → Safe U (λ a t. P a t × Q a t) o
  Safe-both (returns (a, s)) h k = (h, k)
  Safe-both (throws e) h k = k
  Safe-both undefined h k = k
  Safe-both diverges h k = k

  pub Safe-ends_both :
      (o : Outcome (A × S)) → Total P o → Safe U Q o → Returns U (λ a t. P a t × Q a t) o
  Safe-ends_both (returns (a, s)) h k = (h, k)
  Safe-ends_both (throws e) h k = k
  Safe-ends_both undefined h k = k
  Safe-ends_both diverges h k = h

  pub Safe-ends : (o : Outcome (A × S)) → Total P o → Safe U Q o → Returns U P o
  Safe-ends (returns (a, s)) h k = h
  Safe-ends (throws e) h k = k
  Safe-ends undefined h k = k
  Safe-ends diverges h k = h

-- Code that ends without any undefined behaviour returns.
pub Returns-equation :
    {A S : Type 0} (P : A → S → Type 0) (o : Outcome (A × S))
    → Returns ⊥ P o
    → (a : A) × (t : S) × (o ≡ returns (a, t)) × P a t
Returns-equation P (returns (a, s)) h = (a, s, refl, h)
Returns-equation P (throws e) h = absurd h
Returns-equation P undefined h = absurd h
Returns-equation P diverges h = absurd h

module _ (U : Type 0) {A B S : Type 0} (Q : B → S → Type 0) (m : M S A) (f : A → M S B)
    (s : S) where
  pub Safe-bind :
      (P : A → S → Type 0)
      → Safe U P (m s)
      → ((a : A) (t : S) → P a t → Safe U Q (f a t))
      → Safe U Q ((m >>= f) s)
  Safe-bind P h k = go (m s) h
    where
      go :
          (o : Outcome (A × S))
          → Safe U P o
          → Safe U Q (elim o [
            | returns (a, t) ↦ f a t
            | throws e ↦ throws e
            | undefined ↦ undefined
            | diverges ↦ diverges
          ])
      go (returns (a, t)) p = k a t p
      go (throws e) p = p
      go undefined p = p
      go diverges p = tt

  -- A sequence whose first part is without faults and leaves what is known by total correctness.
  pub Safe-after :
      (P : A → S → Type 0)
      → Total P (m s)
      → Faultless U (m s)
      → ((a : A) (t : S) → P a t → Safe U Q (f a t))
      → Safe U Q ((m >>= f) s)
  Safe-after P h k next =
      Safe-bind (λ a t. P a t × Unit {0}) (Safe-both U P Anything (m s) h k) (λ a t p. next a t p.0)

module _ (U : Type 0) {S : Type 0} where
  -- A part that only uses memory, with the value known in what follows.
  pub Safe-lift :
      {A B : Type 0} (Q : B → S → Type 0) (o : Option A) (f : A → M S B) (s : S)
      → ((a : A) × (o ≡ some a)) ⊎ U
      → ((a : A) → o ≡ some a → Safe U Q (f a s))
      → Safe U Q ((lift o >>= f) s)
  Safe-lift Q none f s (inl known) h = absurd (ground (arith, known.1))
  Safe-lift Q none f s (inr allowed) h = allowed
  Safe-lift Q (some a) f s known h = h a refl

  pub Safe-if_known :
      {A : Type 0} (Q : A → S → Type 0) (b : Bool) (m k : M S A) (s : S)
      → (b ≡ true → Safe U Q (m s))
      → (b ≡ false → Safe U Q (k s))
      → Safe U Q ((if b then m else k) s)
  Safe-if_known Q true m k s h r = h refl
  Safe-if_known Q false m k s h r = r refl

  -- The same with a test of the state.
  pub Safe-if_at :
      {A : Type 0} (Q : A → S → Type 0) (b : Bool) (o r : Outcome (A × S))
      → (b ≡ true → Safe U Q o)
      → (b ≡ false → Safe U Q r)
      → Safe U Q (if b then o else r)
  Safe-if_at Q true o r h k = h refl
  Safe-if_at Q false o r h k = k refl

  -- What is known to be returned.
  pub Safe-returns :
      {A : Type 0} (P : A → S → Type 0) (o : Outcome (A × S)) {a : A} {t : S}
      → o ≡ returns (a, t)
      → P a t
      → Safe U P o
  Safe-returns P o e p = rw e p
