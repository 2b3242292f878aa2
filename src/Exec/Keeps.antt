-- ===== src/Exec/Keeps.antt =====
-- Invariants of code with effects: a computation that keeps one does not diverge from a state in
-- which it holds, and if it returns, it holds again.
use libdoip.Base.{◌≡◌, refl, Bool, true, false, Option, none, some, if◌then◌else◌}
use libdoip.Exec.{M, lift, when, ◌>>=◌}
use libdoip.Exec.Total.{Total, Total-bind}

abbrev pub Keeps : {S A : Type 0} → (S → Type 0) → M S A → Type 0
Keeps {S} I m = (s : S) → I s → Total (λ a t. I t) (m s)

-- From a state in which K holds, a computation leads to one in which I holds.
abbrev pub Leads : {S A : Type 0} → (S → Type 0) → (S → Type 0) → M S A → Type 0
Leads {S} K I m = (s : S) → K s → Total (λ a t. I t) (m s)

module _ {S : Type 0} (K I : S → Type 0) where
  pub Leads-bind :
      {A B : Type 0} (m : M S A) (f : A → M S B)
      → Keeps K m
      → ((a : A) → Leads K I (f a))
      → Leads K I (m >>= f)
  Leads-bind m f h k s i = Total-bind (λ a t. K t) (λ b t. I t) m f s (h s i) (λ a t j. k a t j)

  pub Leads-if :
      {A : Type 0} (b : Bool) (m k : M S A)
      → Leads K I m
      → Leads K I k
      → Leads K I (if b then m else k)
  Leads-if true m k h r = h
  Leads-if false m k h r = r

module _ {S : Type 0} (I : S → Type 0) where
  pub Keeps-bind :
      {A B : Type 0} (m : M S A) (f : A → M S B)
      → Keeps I m
      → ((a : A) → Keeps I (f a))
      → Keeps I (m >>= f)
  Keeps-bind m f h k s i = Total-bind (λ a t. I t) (λ b t. I t) m f s (h s i) (λ a t j. k a t j)

  pub Keeps-lift : {A : Type 0} (o : Option A) → Keeps I (lift o)
  Keeps-lift none s i = tt
  Keeps-lift (some a) s i = i

  -- The same with the value or the test known in what follows.
  pub Keeps-lift_known :
      {A B : Type 0} (o : Option A) (f : A → M S B)
      → ((a : A) → o ≡ some a → Keeps I (f a))
      → Keeps I (lift o >>= f)
  Keeps-lift_known none f h s i = tt
  Keeps-lift_known (some a) f h s i = h a refl s i

  pub Keeps-if_known :
      {A : Type 0} (b : Bool) (m k : M S A)
      → (b ≡ true → Keeps I m)
      → (b ≡ false → Keeps I k)
      → Keeps I (if b then m else k)
  Keeps-if_known true m k h r = h refl
  Keeps-if_known false m k h r = r refl

  pub Keeps-if :
      {A : Type 0} (b : Bool) (m k : M S A) → Keeps I m → Keeps I k → Keeps I (if b then m else k)
  Keeps-if true m k h r = h
  Keeps-if false m k h r = r

  pub Keeps-when : (b : Bool) (m : M S (Unit {0})) → Keeps I m → Keeps I (when b m)
  Keeps-when true m h s i = h s i
  Keeps-when false m h s i = i

  -- The same with a test of the state.
  pub Keeps-if_at :
      {A : Type 0} (b : Bool) (m k : M S A) (s : S)
      → Total (λ a t. I t) (m s)
      → Total (λ a t. I t) (k s)
      → Total (λ a t. I t) (if b then m s else k s)
  Keeps-if_at true m k s h r = h
  Keeps-if_at false m k s h r = r
