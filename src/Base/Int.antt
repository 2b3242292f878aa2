-- ===== src/Base/Int.antt =====
-- The C++ `int` results that can be negative, over the native numbers. The program only tests their
-- sign, converts them, and counts with them.
use Prim.Native.Nat.{ℕ, zero, suc, ◌-◌, ◌%◌, ◌^◌}
use mathlib.Core.Bool.{Bool, true, false}
use mathlib.Core.Option.{Option, none, some}
use libdoip.Base.Tests.{if◌then◌else◌}
use libdoip.Base.Tests.{leb, ltb, ◌==◌}

-- `negsuc n` is -(n + 1).
pub data ℤ : Type 0 where
  pos : ℕ → ℤ
  negsuc : ℕ → ℤ

abbrev pub minus_one : ℤ
minus_one = negsuc 0

-- `i <= 0`
abbrev pub is_nonpositive : ℤ → Bool
is_nonpositive (pos n) = n == 0
is_nonpositive (negsuc n) = true

-- `i < 0`
abbrev pub is_negative : ℤ → Bool
is_negative (pos n) = false
is_negative (negsuc n) = true

-- `i >= k`
abbrev pub is_at_least : ℕ → ℤ → Bool
is_at_least k (pos n) = leb k n
is_at_least k (negsuc n) = false

-- The conversion of an `int` to `unsigned long`, modulo 2 ^ 64.
abbrev pub to_unsigned_long : ℤ → ℕ
to_unsigned_long (pos n) = n
to_unsigned_long (negsuc n) = 2 ^ 64 - 1 - n

-- The conversion of `unsigned long` to `int`: the low 32 bits, read as two's complement.
abbrev pub to_int_low : Bool → ℕ → ℤ
to_int_low true w = pos w
to_int_low false w = negsuc (2 ^ 32 - 1 - w)

abbrev pub to_int : ℕ → ℤ
to_int n = to_int_low (ltb (n % 2 ^ 32) (2 ^ 31)) (n % 2 ^ 32)

-- The sum of ints that are not negative; an overflow is undefined behaviour.
abbrev pub int_sum : ℕ → Option ℕ
int_sum n = if ltb n (2 ^ 31) then some n else none

-- `++i` and `--i` on an `int` of 32 bits; an overflow is undefined behaviour.
abbrev pub increment : ℤ → Option ℤ
increment (pos n) = if n == 2 ^ 31 - 1 then none else some (pos (suc n))
increment (negsuc zero) = some (pos 0)
increment (negsuc (suc n)) = some (negsuc n)

abbrev pub decrement : ℤ → Option ℤ
decrement (pos zero) = some (negsuc 0)
decrement (pos (suc n)) = some (pos n)
decrement (negsuc n) = if n == 2 ^ 31 - 1 then none else some (negsuc (suc n))
