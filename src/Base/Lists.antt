-- ===== src/Base/Lists.antt =====
-- Lists measured and indexed by native numbers, under the library's names.
use Prim.Native.Nat.{ℕ, zero, suc, ◌+◌, ◌-◌, ◌<◌, ◌≤◌}
use mathlib.Core.Path.{◌≡◌, refl, ap, sym, ◌∙◌}
use mathlib.Core.List.{List, [], ◌∷◌, ◌++◌, map}
use mathlib.Core.Option.{Option, none, some}
use native.Mathlib.Omega.{arith}

module _ {ℓ} {A : Type ℓ} where
  abbrev pub length : List A → ℕ
  length [] = 0
  length (x ∷ xs) = suc (length xs)

  abbrev pub get_elem? : List A → ℕ → Option A
  get_elem? [] i = none
  get_elem? (x ∷ xs) zero = some x
  get_elem? (x ∷ xs) (suc i) = get_elem? xs i

  abbrev pub get_or : List A → ℕ → A → A
  get_or [] i d = d
  get_or (x ∷ xs) zero d = x
  get_or (x ∷ xs) (suc i) d = get_or xs i d

  abbrev pub take : ℕ → List A → List A
  take zero xs = []
  take (suc n) [] = []
  take (suc n) (x ∷ xs) = x ∷ take n xs

  abbrev pub drop : ℕ → List A → List A
  drop zero xs = xs
  drop (suc n) [] = []
  drop (suc n) (x ∷ xs) = drop n xs

  abbrev pub replicate : ℕ → A → List A
  replicate zero a = []
  replicate (suc n) a = a ∷ replicate n a

module _ {ℓ} {A : Type ℓ} where
  pub length-append : (xs ys : List A) → length (xs ++ ys) ≡ length xs + length ys
  length-append [] ys = omega arith
  length-append (x ∷ xs) ys = omega (arith, length-append xs ys)

  pub length-replicate : (n : ℕ) (a : A) → length (replicate n a) ≡ n
  length-replicate zero a = refl
  length-replicate (suc n) a = ap suc (length-replicate n a)

  -- An access in bounds.
  pub get_elem?-known : (xs : List A) (i : ℕ) → i < length xs → (x : A) × (get_elem? xs i ≡ some x)
  get_elem?-known [] i h = absurd (omega arith)
  get_elem?-known (x ∷ xs) zero h = (x, refl)
  get_elem?-known (x ∷ xs) (suc i) h = get_elem?-known xs i (omega arith)

  pub length-drop : (n : ℕ) (xs : List A) → length (drop n xs) ≡ length xs - n
  length-drop zero xs = omega arith
  length-drop (suc n) [] = omega arith
  length-drop (suc n) (x ∷ xs) = omega (arith, length-drop n xs)

  pub length-map {κ} : {B : Type κ} (f : A → B) (xs : List A) → length (map f xs) ≡ length xs
  length-map f [] = refl
  length-map f (x ∷ xs) = ap suc (length-map f xs)

-- Every element satisfies `P`.
abbrev pub All {ℓ κ} : {A : Type ℓ} → (A → Type κ) → List A → Type κ
All P [] = Unit
All P (x ∷ xs) = P x × All P xs

abbrev pub IsByte : ℕ → Type 0
IsByte b = b < 256

pub All-append {ℓ κ} :
    {A : Type ℓ} (P : A → Type κ) (xs ys : List A) → All P xs → All P ys → All P (xs ++ ys)
All-append P [] ys p q = q
All-append P (x ∷ xs) ys p q = (p.0, All-append P xs ys p.1 q)

-- Two lists are the same as far as both go.
abbrev pub Agrees {ℓ} : {A : Type ℓ} → List A → List A → Type ℓ
Agrees [] ys = Unit
Agrees (x ∷ xs) [] = Unit
Agrees (x ∷ xs) (y ∷ ys) = (x ≡ y) × Agrees xs ys

module _ {ℓ} {A : Type ℓ} where
  pub Agrees-front : (xs ys zs : List A) → length zs ≡ length xs → Agrees (xs ++ ys) zs → zs ≡ xs
  Agrees-front [] ys [] e h = refl
  Agrees-front [] ys (z ∷ zs) e h = absurd (omega arith)
  Agrees-front (x ∷ xs) ys [] e h = absurd (omega arith)
  Agrees-front (x ∷ xs) ys (z ∷ zs) e h = rw (h.0, Agrees-front xs ys zs (omega arith) h.1)

  pub Agrees-behind : (xs ys zs : List A) → Agrees (xs ++ ys) (xs ++ zs) → Agrees ys zs
  Agrees-behind [] ys zs h = h
  Agrees-behind (x ∷ xs) ys zs h = Agrees-behind xs ys zs h.1

  pub Agrees-take : (n : ℕ) (xs ys : List A) → Agrees xs (take n (xs ++ ys))
  Agrees-take zero [] ys = tt
  Agrees-take zero (x ∷ xs) ys = tt
  Agrees-take (suc n) [] ys = tt
  Agrees-take (suc n) (x ∷ xs) ys = (refl, Agrees-take n xs ys)

  pub length-take_le : (n : ℕ) (xs : List A) → length (take n xs) ≤ n
  length-take_le zero xs = omega arith
  length-take_le (suc n) [] = omega arith
  length-take_le (suc n) (x ∷ xs) = omega (arith, length-take_le n xs)

  pub length-take_le_length : (n : ℕ) (xs : List A) → length (take n xs) ≤ length xs
  length-take_le_length zero xs = omega arith
  length-take_le_length (suc n) [] = omega arith
  length-take_le_length (suc n) (x ∷ xs) = omega (arith, length-take_le_length n xs)

  take-nil : (n : ℕ) → take {A = A} n [] ≡ []
  take-nil zero = refl
  take-nil (suc n) = refl

  pub take-split : (m n : ℕ) (xs : List A) → take m xs ++ take n (drop m xs) ≡ take (m + n) xs
  take-split zero n xs = ap (λ k. take k xs) (omega arith)
  take-split (suc m) n [] = take-nil n ∙ sym (take-nil (suc m + n))
  take-split (suc m) n (x ∷ xs) =
      ap (λ ys. x ∷ ys) (take-split m n xs) ∙ ap (λ k. take k (x ∷ xs)) next
    where
      next : suc (m + n) ≡ suc m + n
      next = omega arith
