-- ===== src/Base/Digits.antt =====
-- What the decimal digits of a number are made of.
use Prim.Native.Nat.{ℕ, zero, suc, ◌/◌, ◌%◌, ◌<◌}
use Prim.Native.Char.{code}
use Prim.Native.String.{char_at}
use mathlib.Core.Path.{◌≡◌, refl}
use mathlib.Core.Bool.{Bool, true, ◌&&◌, ◌||◌}
use native.Mathlib.Omega.{arith}
use go_ddd_template.Base.Tests.{ltb, leb}
use go_ddd_template.Base.Paths.{digit, decimal, decimal_loop}
use go_ddd_template.Base.Split.{free_of, free_of-concat}

abbrev digit_code_in_range : ℕ → Bool
digit_code_in_range n =
    leb 48 (code (char_at "0123456789" n)) && leb (code (char_at "0123456789" n)) 57

digit_range : (n : ℕ) → n < 10 → digit_code_in_range n ≡ true
digit_range zero h = refl
digit_range (suc zero) h = refl
digit_range (suc (suc zero)) h = refl
digit_range (suc (suc (suc zero))) h = refl
digit_range (suc (suc (suc (suc zero)))) h = refl
digit_range (suc (suc (suc (suc (suc zero))))) h = refl
digit_range (suc (suc (suc (suc (suc (suc zero)))))) h = refl
digit_range (suc (suc (suc (suc (suc (suc (suc zero))))))) h = refl
digit_range (suc (suc (suc (suc (suc (suc (suc (suc zero)))))))) h = refl
digit_range (suc (suc (suc (suc (suc (suc (suc (suc (suc zero))))))))) h = refl
digit_range (suc (suc (suc (suc (suc (suc (suc (suc (suc (suc n)))))))))) h = absurd (omega arith)

-- The code of no digit.
abbrev pub OtherCode : ℕ → Type 0
OtherCode c = (ltb c 48 || ltb 57 c) ≡ true

digit-free_of : (c n : ℕ) → OtherCode c → n < 10 → free_of c (digit n) ≡ true
digit-free_of c n h k = ground (arith, digit_range n k)

decimal_loop-free_of : (c fuel n : ℕ) → OtherCode c → free_of c (decimal_loop fuel n) ≡ true
unfolding decimal_loop
decimal_loop-free_of c zero n h = digit-free_of c (n % 10) h (omega arith)
decimal_loop-free_of c (suc fuel) n h = ground (
  arith,
  digit-free_of c n h,
  free_of-concat c (decimal_loop fuel (n / 10)) (digit (n % 10))
      (decimal_loop-free_of c fuel (n / 10) h) (digit-free_of c (n % 10) h (omega arith)),
)

-- The decimal digits of a number have no other character among them.
pub decimal-free_of : (c n : ℕ) → OtherCode c → free_of c (decimal n) ≡ true
unfolding decimal
decimal-free_of c n h = decimal_loop-free_of c n n h
