-- ===== src/Base/Word.antt =====
-- Go's `int` and `int64` on a 64-bit platform, as bit patterns below 2 ^ 64: a pattern from 2 ^ 63
-- on stands for the negative number that is 2 ^ 64 less. Arithmetic wraps round.
use Prim.Native.Nat.{ℕ, ◌+◌, ◌-◌, ◌*◌, ◌%◌, ◌^◌}
use mathlib.Core.Bool.{Bool}
use go_ddd_template.Base.Tests.{ltb, leb, if◌then◌else◌}

abbrev pub GoInt : Type 0
GoInt = ℕ

abbrev pub int_mod : ℕ
int_mod = 2 ^ 64

abbrev pub sign_bit : ℕ
sign_bit = 2 ^ 63

abbrev pub add_int : GoInt → GoInt → GoInt
add_int a b = (a + b) % int_mod

abbrev pub sub_int : GoInt → GoInt → GoInt
sub_int a b = (a + int_mod - b) % int_mod

abbrev pub mul_int : GoInt → GoInt → GoInt
mul_int a b = (a * b) % int_mod

abbrev pub is_negative : GoInt → Bool
is_negative a = leb sign_bit a

-- `a < b` as signed numbers.
abbrev pub less_int : GoInt → GoInt → Bool
less_int a b = ltb ((a + sign_bit) % int_mod) ((b + sign_bit) % int_mod)

-- int32(n) of an int, as a pattern below 2 ^ 32, and int(n) of an int32, which extends the sign.
abbrev pub int32_mod : ℕ
int32_mod = 2 ^ 32

abbrev pub to_int32 : GoInt → ℕ
to_int32 n = n % int32_mod

abbrev pub is_negative_int32 : ℕ → Bool
is_negative_int32 n = leb (2 ^ 31) n

abbrev pub of_int32 : ℕ → GoInt
of_int32 n = if is_negative_int32 n then n + (int_mod - int32_mod) else n
