-- ===== src/Base/Bits.antt =====
-- The bit operations of the byte-wise encoders, as arithmetic.
use Prim.Native.Nat.{ℕ, zero, suc, ◌+◌, ◌-◌, ◌*◌, ◌/◌, ◌%◌, ◌^◌, ◌≤◌, ◌<◌, min, max}
use Prim.Native.Nat.{bit_and, bit_or, bit_xor, digits, bit_and-bitwise, bit_or-bitwise}
use mathlib.Core.Path.{◌≡◌, refl, ap}
use mathlib.Core.Bool.{Bool, true, ◌&&◌}
use native.Mathlib.Nat.{pow-suc}
use native.Mathlib.Omega.{arith}
use libdoip.Base.Tests.{◌==◌, ==_iff}

-- `x << k` and `x >> k` before any conversion.
abbrev pub shl : ℕ → ℕ → ℕ
shl x k = x * 2 ^ k

abbrev pub shr : ℕ → ℕ → ℕ
shr x k = x / 2 ^ k

-- The conversions to `unsigned char`, `unsigned short` and `unsigned int`.
abbrev pub u8 : ℕ → ℕ
u8 x = x % 2 ^ 8

abbrev pub u16 : ℕ → ℕ
u16 x = x % 2 ^ 16

abbrev pub u32 : ℕ → ℕ
u32 x = x % 2 ^ 32

-- More fuel than the value has digits changes nothing.
module _ (base : ℕ → ℕ) (digit : ℕ → ℕ → ℕ) where
  digits_enough : (f g a b : ℕ) → a ≤ f → a ≤ g → digits base digit f a b ≡ digits base digit g a b
  digits_enough zero zero a b p q = refl
  digits_enough zero (suc g) zero b p q = refl
  digits_enough zero (suc g) (suc a) b p q = absurd (omega arith)
  digits_enough (suc f) zero zero b p q = refl
  digits_enough (suc f) zero (suc a) b p q = absurd (omega arith)
  digits_enough (suc f) (suc g) zero b p q = refl
  digits_enough (suc f) (suc g) (suc a) b p q =
      rw (digits_enough f g (suc a / 2) (b / 2) (omega arith) (omega arith))

low_bit-bit_or : (a b : ℕ) → bit_or a b ≡ bit_or (a / 2) (b / 2) * 2 + max (a % 2) (b % 2)
low_bit-bit_or zero b = omega (arith, bit_or-bitwise 0 b, bit_or-bitwise 0 (b / 2))
low_bit-bit_or (suc a) b = omega (
  arith,
  bit_or-bitwise (suc a) b,
  bit_or-bitwise (suc a / 2) (b / 2),
  digits_enough (λ y. y) max a (suc a / 2) (suc a / 2) (b / 2) (omega arith) (omega arith),
)

low_bit-bit_and : (a b : ℕ) → bit_and a b ≡ bit_and (a / 2) (b / 2) * 2 + min (a % 2) (b % 2)
low_bit-bit_and zero b = omega (arith, bit_and-bitwise 0 b, bit_and-bitwise 0 (b / 2))
low_bit-bit_and (suc a) b = omega (
  arith,
  bit_and-bitwise (suc a) b,
  bit_and-bitwise (suc a / 2) (b / 2),
  digits_enough (λ y. 0) min a (suc a / 2) (suc a / 2) (b / 2) (omega arith) (omega arith),
)

pub zero-bit_or : (b : ℕ) → bit_or 0 b ≡ b
zero-bit_or b = bit_or-bitwise 0 b

bit_or-zero_below : (n a : ℕ) → a ≤ n → bit_or a 0 ≡ a
bit_or-zero_below n zero h = refl
bit_or-zero_below zero (suc a) h = absurd (omega arith)
bit_or-zero_below (suc n) (suc a) h =
    omega (arith, low_bit-bit_or (suc a) 0, bit_or-zero_below n (suc a / 2) (omega arith))

bit_and-zero_below : (n a : ℕ) → a ≤ n → bit_and a 0 ≡ 0
bit_and-zero_below n zero h = refl
bit_and-zero_below zero (suc a) h = absurd (omega arith)
bit_and-zero_below (suc n) (suc a) h =
    omega (arith, low_bit-bit_and (suc a) 0, bit_and-zero_below n (suc a / 2) (omega arith))

double-shl : (q k : ℕ) → q * 2 ^ suc k ≡ 2 * (q * 2 ^ k)
double-shl q k = omega (arith, ap (λ (t : ℕ). q * t) (pow-suc 2 k))

-- `(q << k) | r` is a sum where `r` has at most k bits.
pub bit_or-shl : (k q r : ℕ) → r < 2 ^ k → bit_or (q * 2 ^ k) r ≡ q * 2 ^ k + r
bit_or-shl zero q r h = ground (arith, bit_or-zero_below q q)
bit_or-shl (suc k) q r h = ground (
  arith,
  low_bit-bit_or (q * 2 ^ suc k) r,
  double-shl q k,
  bit_or-shl k q (r / 2) (omega (arith, pow-suc 2 k)),
)

bit_and-one : (a : ℕ) → bit_and a 1 ≡ a % 2
bit_and-one a = omega (arith, low_bit-bit_and a 1, bit_and-zero_below (a / 2) (a / 2) (omega arith))

bit_and-0x0f : (a : ℕ) → bit_and a 0x0f ≡ a % 16
bit_and-0x0f a = omega (
  arith,
  low_bit-bit_and a 15,
  low_bit-bit_and (a / 2) 7,
  low_bit-bit_and (a / 2 / 2) 3,
  bit_and-one (a / 2 / 2 / 2),
)

-- `a & 0xFF` is the low byte.
pub bit_and-0xff : (a : ℕ) → bit_and a 0xff ≡ a % 256
bit_and-0xff a = omega (
  arith,
  low_bit-bit_and a 255,
  low_bit-bit_and (a / 2) 127,
  low_bit-bit_and (a / 2 / 2) 63,
  low_bit-bit_and (a / 2 / 2 / 2) 31,
  bit_and-0x0f (a / 2 / 2 / 2 / 2),
)

pub low_byte_twice : (a : ℕ) → a % 256 % 256 ≡ a % 256
low_byte_twice a = omega arith

-- The bytes that the encoders write.
pub ruleset bytes = (bit_and-0xff, low_byte_twice)

-- Over a byte, a test is checked at every value.
every_below : ℕ → (ℕ → Bool) → Bool
every_below zero p = true
every_below (suc n) p = p n && every_below n p

every_below_sound : (n : ℕ) (p : ℕ → Bool) (x : ℕ) → every_below n p ≡ true → x < n → p x ≡ true
unfolding every_below
every_below_sound zero p x h lt = absurd (omega arith)
every_below_sound (suc n) p x h lt = ground (arith, every_below_sound n p x)

complement_table : every_below 256 (λ x. bit_xor x 0xff == 255 - x) ≡ true
unfolding every_below
complement_table = refl

-- `x ^ 0xFF` is the complement of a byte.
pub bit_xor-0xff : (x : ℕ) → x < 256 → bit_xor x 0xff ≡ 255 - x
bit_xor-0xff x h =
    (==_iff (bit_xor x 0xff) (255 - x)).0 (every_below_sound 256 _ x complement_table h)

pub bit_or-lt : (k a b : ℕ) → a < 2 ^ k → b < 2 ^ k → bit_or a b < 2 ^ k
bit_or-lt zero a b p q =
    let a_zero : a ≡ 0 = omega arith in
    let b_zero : b ≡ 0 = omega arith in rw (a_zero, b_zero) (omega arith)
bit_or-lt (suc k) a b p q = omega (
  arith,
  low_bit-bit_or a b,
  pow-suc 2 k,
  bit_or-lt k (a / 2) (b / 2) (omega (arith, pow-suc 2 k)) (omega (arith, pow-suc 2 k)),
)
