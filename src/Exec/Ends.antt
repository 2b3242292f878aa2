-- ===== src/Exec/Ends.antt =====
-- How a computation ends: what it returns, what it throws and when, and when it has undefined
-- behaviour. It does not diverge.
use libdoip.Base.{◌≡◌, refl, sym, subst, Option, none, some}
use libdoip.Exec.{M, Outcome, Exception, returns, throws, undefined, diverges, lift, ◌>>=◌}

abbrev pub Ends :
    {A S : Type 0} → (A → S → Type 0) → (Exception → Type 0) → Type 0 → Outcome (A × S) → Type 0
Ends Q R U (returns (a, s)) = Q a s
Ends Q R U (throws e) = R e
Ends Q R U undefined = U
Ends Q R U diverges = ⊥

pub Ends-mono :
    {A S : Type 0} (P Q : A → S → Type 0) (R R' : Exception → Type 0) (U U' : Type 0)
    (o : Outcome (A × S))
    → ((a : A) (s : S) → P a s → Q a s)
    → ((e : Exception) → R e → R' e)
    → (U → U')
    → Ends P R U o
    → Ends Q R' U' o
Ends-mono P Q R R' U U' (returns (a, s)) f g k h = f a s h
Ends-mono P Q R R' U U' (throws e) f g k h = g e h
Ends-mono P Q R R' U U' undefined f g k h = k h
Ends-mono P Q R R' U U' diverges f g k h = absurd h

module _ {S B : Type 0} (Q : B → S → Type 0) (R : Exception → Type 0) (U : Type 0) where
  -- A sequence ends in one of these ways if both of its parts do.
  pub Ends-bind :
      {A : Type 0} (P : A → S → Type 0) (m : M S A) (f : A → M S B) (s : S)
      → Ends P R U (m s)
      → ((a : A) (t : S) → P a t → Ends Q R U (f a t))
      → Ends Q R U ((m >>= f) s)
  Ends-bind {A} P m f s h k = go (m s) h
    where
      go :
          (o : Outcome (A × S))
          → Ends P R U o
          → Ends Q R U (elim o [
            | returns (a, t) ↦ f a t
            | throws e ↦ throws e
            | undefined ↦ undefined
            | diverges ↦ diverges
          ])
      go (returns (a, t)) h = k a t h
      go (throws e) h = h
      go undefined h = h
      go diverges h = absurd h

  -- A first part that leaves one known state.
  pub Ends-known :
      {A : Type 0} (P : A → Type 0) (m : M S A) (f : A → M S B) (s u : S)
      → Ends (λ a t. P a × (t ≡ u)) R U (m s)
      → ((a : A) → P a → Ends Q R U (f a u))
      → Ends Q R U ((m >>= f) s)
  Ends-known P m f s u h k =
      Ends-bind (λ a t. P a × (t ≡ u)) m f s h
        (λ a t p. subst (λ v. Ends Q R U (f a v)) (sym p.1) (k a p.0))

  -- A first part that uses a value which may be missing.
  pub Ends-lift :
      {A : Type 0} (o : Option A) (f : A → M S B) (s : S)
      → (o ≡ none → U)
      → ((a : A) → o ≡ some a → Ends Q R U (f a s))
      → Ends Q R U ((lift o >>= f) s)
  Ends-lift none f s missing k = missing refl
  Ends-lift (some a) f s missing k = k a refl
