-- ===== src/Base/Memory.antt =====
-- Heap arrays of `unsigned char`. A cell of `new unsigned char[n]` is `none` until it is written; a
-- read of such a cell, and any access out of bounds, is undefined behaviour and gives `none`.
use Prim.Native.Nat.{ℕ, zero, suc}
use mathlib.Core.Option.{Option, none, some}
use mathlib.Core.List.{List, [], ◌∷◌}
use libdoip.Base.Lists.{length, get_elem?, replicate, length-append, length-replicate}
use native.Mathlib.Omega.{arith}
use mathlib.Core.List.{◌++◌, map, append_assoc, append-nil}
use mathlib.Core.Path.{◌≡◌, refl, ap, sym, ◌∙◌}
use Prim.Native.Nat.{◌+◌, ◌-◌, ◌≤◌}

-- The monad of code that may have undefined behaviour.
infixl 5 ◌>>=◌ ◌>>◌
abbrev pub ◌>>=◌ {ℓ κ} : {A : Type ℓ} {B : Type κ} → Option A → (A → Option B) → Option B
none >>= f = none
some a >>= f = f a

abbrev pub ◌>>◌ {ℓ} : {B : Type ℓ} → Option (Unit {0}) → Option B → Option B
m >> k = m >>= λ _. k

abbrev pub Cell : Type 0
Cell = Option ℕ

abbrev pub Buffer : Type 0
Buffer = List Cell

-- `new unsigned char[n]`
abbrev pub alloc : ℕ → Buffer
alloc n = replicate n none

-- `buffer[i] = v`
abbrev pub store : Buffer → ℕ → ℕ → Option Buffer
store [] i v = none
store (c ∷ cs) zero v = some (some v ∷ cs)
store (c ∷ cs) (suc i) v = store cs i v >>= λ cs'. some (c ∷ cs')

-- `buffer[i]`
abbrev pub load : Buffer → ℕ → Option ℕ
load [] i = none
load (c ∷ cs) zero = c
load (c ∷ cs) (suc i) = load cs i

-- The first n bytes of a buffer, as a system call reads them.
abbrev pub contents : ℕ → Buffer → Option (List ℕ)
contents zero cs = some []
contents (suc n) [] = none
contents (suc n) (none ∷ cs) = none
contents (suc n) (some v ∷ cs) = contents n cs >>= λ vs. some (v ∷ vs)

-- An array of n > 0 bytes that have all been set.
abbrev pub IsWhole : Buffer → ℕ → Type 0
IsWhole buffer n =
    (b0 : ℕ) × (rest : List ℕ) × (buffer ≡ map some (b0 ∷ rest)) × (length (b0 ∷ rest) ≡ n)

-- A pointer to an array that is only read; a pointer that was never set is `none`.
abbrev pub Pointer : Type 0
Pointer = Option (List ℕ)

abbrev pub deref : Pointer → ℕ → Option ℕ
deref none i = none
deref (some a) i = get_elem? a i

-- `for (n rounds) buffer[d++] = source[s++];`
pub copy : ℕ → Buffer → ℕ → List ℕ → ℕ → Option Buffer
copy zero buffer d source s = some buffer
copy (suc n) buffer d source s = do
  v ← get_elem? source s
  buffer' ← store buffer d v
  copy n buffer' (d + 1) source (s + 1)

pub get_elem?-append {ℓ} :
    {A : Type ℓ} (xs : List A) (y : A) (ys : List A) → get_elem? (xs ++ y ∷ ys) (length xs) ≡ some y
get_elem?-append [] y ys = refl
get_elem?-append (x ∷ xs) y ys = get_elem?-append xs y ys

pub store-append :
    (xs : Buffer) (c : Cell) (ys : Buffer) (v : ℕ)
    → store (xs ++ c ∷ ys) (length xs) v ≡ some (xs ++ some v ∷ ys)
store-append [] c ys v = refl
store-append (x ∷ xs) c ys v = rw (store-append xs c ys v)

-- A copy that fits both arrays writes the copied bytes and nothing else.
pub copy_lem :
    (n d s : ℕ) (front : Buffer) (old : Buffer) (back : Buffer) (before vs after : List ℕ)
    → length front ≡ d
    → length old ≡ n
    → length before ≡ s
    → length vs ≡ n
    → copy n (front ++ (old ++ back)) d (before ++ (vs ++ after)) s
      ≡ some (front ++ (map some vs ++ back))
unfolding copy
copy_lem zero d s front [] back before [] after p q r t = refl
copy_lem zero d s front (c ∷ old) back before vs after p q r t = absurd (omega arith)
copy_lem zero d s front [] back before (v ∷ vs) after p q r t = absurd (omega arith)
copy_lem (suc n) d s front [] back before vs after p q r t = absurd (omega arith)
copy_lem (suc n) d s front (c ∷ old) back before [] after p q r t = absurd (omega arith)
copy_lem (suc n) d s front (c ∷ old) back before (v ∷ vs) after p q r t =
    rw (← r, get_elem?-append before v (vs ++ after), ← p, store-append front c (old ++ back) v)
      (ap (λ b. copy n b (length front + 1) (before ++ v ∷ (vs ++ after)) (length before + 1))
          (sym (append_assoc front (some v ∷ []) (old ++ back)))
        ∙ ap
            (λ b.
              copy n ((front ++ some v ∷ []) ++ (old ++ back)) (length front + 1) b
                (length before + 1))
            (sym (append_assoc before (v ∷ []) (vs ++ after)))
        ∙ copy_lem n (length front + 1) (length before + 1) (front ++ some v ∷ []) old back
            (before ++ v ∷ []) vs after (length-append front (some v ∷ [])) (omega arith)
            (length-append before (v ∷ [])) (omega arith)
        ∙ ap some (append_assoc front (some v ∷ []) (map some vs ++ back)))

-- Reading back what was written.
pub contents-map :
    (vs : List ℕ) (rest : Buffer) → contents (length vs) (map some vs ++ rest) ≡ some vs
contents-map [] rest = refl
contents-map (v ∷ vs) rest = rw (contents-map vs rest)

pub contents_whole : (vs : List ℕ) → contents (length vs) (map some vs) ≡ some vs
contents_whole [] = refl
contents_whole (v ∷ vs) = rw (contents_whole vs)

-- A copy of the rest of an array into a new array of its size.
pub copy-alloc :
    (before vs : List ℕ)
    → copy (length vs) (alloc (length vs)) 0 (before ++ vs) (length before) ≡ some (map some vs)
copy-alloc before vs = simp append-nil at (
    copy_lem (length vs) 0 (length before) [] (alloc (length vs)) [] before vs [] refl
      (length-replicate (length vs) none) refl refl)

-- A copy of what is behind the first four bytes.
pub copy-IsWhole :
    (source : List ℕ) (n : ℕ)
    → length source ≡ n
    → 5 ≤ n
    → (buffer : Buffer) × (copy (n - 4) (alloc (n - 4)) 0 source 4 ≡ some buffer)
      × IsWhole buffer (n - 4)
copy-IsWhole [] n e h = absurd (omega arith)
copy-IsWhole (a ∷ []) n e h = absurd (omega arith)
copy-IsWhole (a ∷ b ∷ []) n e h = absurd (omega arith)
copy-IsWhole (a ∷ b ∷ c ∷ []) n e h = absurd (omega arith)
copy-IsWhole (a ∷ b ∷ c ∷ d ∷ []) n e h = absurd (omega arith)
copy-IsWhole (a ∷ b ∷ c ∷ d ∷ v ∷ vs) n e h =
    let size : n - 4 ≡ length (v ∷ vs) = omega arith in
    (map some (v ∷ vs), rw size (copy-alloc (a ∷ b ∷ c ∷ d ∷ []) (v ∷ vs)), (v, vs, refl, sym size))

-- A copy of a whole array behind the cells that are already written.
pub copy-behind :
    (front : Buffer) (vs : List ℕ)
    → copy (length vs) (front ++ alloc (length vs)) (length front) vs 0
      ≡ some (front ++ map some vs)
copy-behind front vs = simp append-nil at (
    copy_lem (length vs) (length front) 0 front (alloc (length vs)) [] [] vs [] refl
      (length-replicate (length vs) none) refl refl)

-- The two writes again, with the written part in front.
pub store_lem :
    (front : Buffer) (c : Cell) (back : Buffer) (d v : ℕ)
    → length front ≡ d
    → store (front ++ c ∷ back) d v ≡ some ((front ++ some v ∷ []) ++ back)
store_lem front c back d v e =
    rw (← e, store-append front c back v) (ap some (sym (append_assoc front (some v ∷ []) back)))

pub copy_whole :
    (front old back : Buffer) (n d : ℕ) (vs : List ℕ)
    → length front ≡ d
    → length old ≡ n
    → length vs ≡ n
    → copy n (front ++ (old ++ back)) d vs 0 ≡ some ((front ++ map some vs) ++ back)
copy_whole front old back n d vs p q r =
    simp append-nil at (copy_lem n d 0 front old back [] vs [] p q refl r)
    ∙ ap some (sym (append_assoc front (map some vs) back))

-- Reads behind a front.
pub get_elem?-skip :
    (xs ys : List ℕ) (i : ℕ) → get_elem? (xs ++ ys) (length xs + i) ≡ get_elem? ys i
get_elem?-skip [] ys i = ap (get_elem? ys) (omega arith)
get_elem?-skip (x ∷ xs) ys i = ap (get_elem? (x ∷ (xs ++ ys))) shift ∙ get_elem?-skip xs ys i
  where
    shift : suc (length xs) + i ≡ suc (length xs + i)
    shift = omega arith

pub copy-skip :
    (n : ℕ) (buffer : Buffer) (d s : ℕ) (xs ys : List ℕ)
    → copy n buffer d (xs ++ ys) (length xs + s) ≡ copy n buffer d ys s
unfolding copy
copy-skip zero buffer d s xs ys = refl
copy-skip (suc n) buffer d s xs ys =
    rw (get_elem?-skip xs ys s)
      (then_read (λ b. copy-skip n b (d + 1) (s + 1) xs ys) (get_elem? ys s))
  where
    next : length xs + s + 1 ≡ length xs + (s + 1)
    next = omega arith

    Same : Type 0
    Same =
        (b : Buffer)
        → copy n b (d + 1) (xs ++ ys) (length xs + (s + 1)) ≡ copy n b (d + 1) ys (s + 1)

    then_store :
        Same
        → (o : Option Buffer)
        → (o >>= λ b. copy n b (d + 1) (xs ++ ys) (length xs + s + 1))
          ≡ (o >>= λ b. copy n b (d + 1) ys (s + 1))
    then_store h none = refl
    then_store h (some b) = rw next (h b)

    then_read :
        Same
        → (o : Option ℕ)
        → (o >>= λ v. store buffer d v >>= λ b. copy n b (d + 1) (xs ++ ys) (length xs + s + 1))
          ≡ (o >>= λ v. store buffer d v >>= λ b. copy n b (d + 1) ys (s + 1))
    then_read h none = refl
    then_read h (some v) = then_store h (store buffer d v)
