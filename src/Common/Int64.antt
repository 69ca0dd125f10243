-- ===== src/Common/Int64.antt =====
-- Go's `int64` as its bit pattern in two's complement, a native number below 2 ^ 64.
use Prim.Native.Nat.{ℕ, ◌+◌, ◌-◌, ◌/◌, ◌%◌, ◌^◌, ◌<◌}
use mathlib.Core.Bool.{Bool, ◌||◌}
use rocket_maintenance.Common.Tests.{leb, ◌==◌, if◌then◌else◌}

abbrev pub Int64 : Type 0
Int64 = ℕ

abbrev pub modulus : ℕ
modulus = 2 ^ 64

abbrev pub sign_bit : ℕ
sign_bit = 2 ^ 63

-- A bit pattern of 64 bits.
abbrev pub IsInt64 : Int64 → Type 0
IsInt64 w = w < modulus

abbrev pub is_negative : Int64 → Bool
is_negative w = leb sign_bit w

-- `w <= 0`
abbrev pub is_not_positive : Int64 → Bool
is_not_positive w = w == 0 || is_negative w

abbrev pub add64 : Int64 → Int64 → Int64
add64 a b = (a + b) % modulus

-- `-w`, which maps the least value to itself
abbrev pub neg64 : Int64 → Int64
neg64 w = (modulus - w) % modulus

-- `w / n` and `w % n` for a positive constant `n`: both round towards zero
abbrev pub quot64 : Int64 → ℕ → Int64
quot64 w n = if is_negative w then neg64 (neg64 w / n) else w / n

abbrev pub rem64 : Int64 → ℕ → Int64
rem64 w n = if is_negative w then neg64 (neg64 w % n) else w % n
