-- ===== src/Exec/Total.antt =====
-- Total correctness: a computation does not diverge, and what it returns satisfies a predicate. An
-- exception and undefined behaviour end it too, and are left to other statements.
use libdoip.Base.{◌≡◌, refl, Bool, true, false, Option, none, some, if◌then◌else◌}
use libdoip.Exec.{M, Outcome, returns, throws, undefined, diverges, lift, ◌>>=◌}

abbrev pub Total : {A S : Type 0} → (A → S → Type 0) → Outcome (A × S) → Type 0
Total P (returns (a, s)) = P a s
Total P (throws e) = Unit
Total P undefined = Unit
Total P diverges = ⊥

abbrev pub Anything : {A S : Type 0} → A → S → Type 0
Anything a s = Unit

-- A sequence is total if its first part is, and the second part is from every state that the first
-- can leave.
pub Total-bind :
    {A B S : Type 0} (P : A → S → Type 0) (Q : B → S → Type 0) (m : M S A) (f : A → M S B) (s : S)
    → Total P (m s)
    → ((a : A) (t : S) → P a t → Total Q (f a t))
    → Total Q ((m >>= f) s)
Total-bind {A} {B} {S} P Q m f s h k = go (m s) h
  where
    go :
        (o : Outcome (A × S))
        → Total P o
        → Total Q (elim o [
          | returns (a, t) ↦ f a t
          | throws e ↦ throws e
          | undefined ↦ undefined
          | diverges ↦ diverges
        ])
    go (returns (a, t)) p = k a t p
    go (throws e) p = tt
    go undefined p = tt
    go diverges p = absurd p

-- Both branches of a test.
pub Total-if :
    {A S : Type 0} (P : A → S → Type 0) (b : Bool) (o r : Outcome (A × S))
    → Total P o
    → Total P r
    → Total P (if b then o else r)
Total-if P true o r h k = h
Total-if P false o r h k = k

-- A computation that does not diverge from any state.
abbrev pub Ends : {S A : Type 0} → M S A → Type 0
Ends {S} m = (s : S) → Total Anything (m s)

pub Total-weaken :
    {A S : Type 0} (P : A → S → Type 0) (o : Outcome (A × S)) → Total P o → Total Anything o
Total-weaken P (returns (a, s)) h = tt
Total-weaken P (throws e) h = tt
Total-weaken P undefined h = tt
Total-weaken P diverges h = h

-- A part that only uses memory leaves the state.
pub Total-lift_state : {A S : Type 0} (o : Option A) (s : S) → Total (λ a t. t ≡ s) (lift o s)
Total-lift_state none s = tt
Total-lift_state (some a) s = refl

-- A weaker predicate of what is returned.
pub Total-mono :
    {A S : Type 0} (P Q : A → S → Type 0) (o : Outcome (A × S))
    → ((a : A) (t : S) → P a t → Q a t)
    → Total P o
    → Total Q o
Total-mono P Q (returns (a, s)) f h = f a s h
Total-mono P Q (throws e) f h = tt
Total-mono P Q undefined f h = tt
Total-mono P Q diverges f h = h

pub Total-lift_both :
    {A S : Type 0} (o : Option A) (s : S) → Total (λ a t. (o ≡ some a) × (t ≡ s)) (lift o s)
Total-lift_both none s = tt
Total-lift_both (some a) s = (refl, refl)

-- Two predicates of what is returned.
pub Total-both :
    {A S : Type 0} (P Q : A → S → Type 0) (o : Outcome (A × S))
    → Total P o
    → Total Q o
    → Total (λ a t. P a t × Q a t) o
Total-both P Q (returns (a, s)) h k = (h, k)
Total-both P Q (throws e) h k = tt
Total-both P Q undefined h k = tt
Total-both P Q diverges h k = absurd h
