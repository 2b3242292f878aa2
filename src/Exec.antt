-- ===== src/Exec.antt =====
-- Code with effects: a computation takes the state and returns, throws a C++ exception, or runs
-- into undefined behaviour. A loop that takes fuel diverges when the fuel is used up.
pub mod Ends
pub mod Total
pub mod Keeps
pub mod Safe
use libdoip.Base.{Bool, true, false, Option, none, some, ◌≡◌}

pub data Exception : Type 0 where
  bad_function_call runtime_error : Exception

pub data Outcome (A : Type 0) : Type 0 where
  returns : A → Outcome A
  throws : Exception → Outcome A
  undefined : Outcome A
  diverges : Outcome A

abbrev pub M : Type 0 → Type 0 → Type 0
M S A = S → Outcome (A × S)

abbrev pub pure : {S A : Type 0} → A → M S A
pure a s = returns (a, s)

infixl 5 ◌>>=◌ ◌>>◌
abbrev pub ◌>>=◌ : {S A B : Type 0} → M S A → (A → M S B) → M S B
◌>>=◌ m f s = elim (m s) [
  | returns (a, t) ↦ f a t
  | throws e ↦ throws e
  | undefined ↦ undefined
  | diverges ↦ diverges
]

abbrev pub ◌>>◌ : {S B : Type 0} → M S (Unit {0}) → M S B → M S B
m >> k = m >>= λ _. k

-- A part that only reads and writes memory.
abbrev pub lift : {S A : Type 0} → Option A → M S A
lift none s = undefined
lift (some a) s = returns (a, s)

abbrev pub get : {S : Type 0} → M S S
get s = returns (s, s)

abbrev pub modify : {S : Type 0} → (S → S) → M S (Unit {0})
modify f s = returns (tt, f s)

abbrev pub skip : {S : Type 0} → M S (Unit {0})
skip = pure tt

-- `if (b) m`
abbrev pub when : {S : Type 0} → Bool → M S (Unit {0}) → M S (Unit {0})
when true m = m
when false m = skip

abbrev pub diverge : {S A : Type 0} → M S A
diverge s = diverges

-- A sequence, when the first part is known to return.
pub >>=-returns :
    {S A B : Type 0} (m : M S A) (f : A → M S B) (s : S) {a : A} {t : S}
    → m s ≡ returns (a, t)
    → (m >>= f) s ≡ f a t
>>=-returns m f s e = rw (e, ◌>>=◌)

-- A sequence, when its first part is known to act as another.
pub >>=-same :
    {S A B : Type 0} (m k : M S A) (f : A → M S B) (s t : S) → m s ≡ k t → (m >>= f) s ≡ (k >>= f) t
>>=-same m k f s t e = rw (e, ◌>>=◌)

-- A part that only uses memory, when its value is known.
pub lift-some :
    {S A : Type 0} (o : Option A) (s : S) {a : A} → o ≡ some a → lift o s ≡ returns (a, s)
lift-some o s e = rw e

-- A part that only uses memory, when it has undefined behaviour.
pub lift-none :
    {S A B : Type 0} (o : Option A) (f : A → M S B) (s : S)
    → o ≡ none
    → (lift o >>= f) s ≡ undefined
lift-none o f s e = rw e
