-- ===== src/Base/Paths.antt =====
-- Texts that the program puts together: fmt's %d, and the first letter in upper case.
use Prim.Native.Nat.{ℕ, zero, suc, ◌-◌, ◌/◌, ◌%◌}
use Prim.Native.Char.{Char, code}
use Prim.Native.String.{String, [], ◌∷◌, char_at}
use Prim.Native.String.{◌++◌ as append}
use mathlib.Core.Path.{◌≡◌, refl}
use mathlib.Core.Bool.{◌&&◌}
use go_ddd_template.Base.Tests.{ltb, leb, if◌then◌else◌}

abbrev pub concat : String → String → String
concat s t = append s t

abbrev pub digit : ℕ → String
digit n = char_at "0123456789" n ∷ []

unfoldable pub decimal_loop : ℕ → ℕ → String
decimal_loop zero n = digit (n % 10)
decimal_loop (suc fuel) n =
    let rest = decimal_loop fuel (n / 10) in
    if ltb n 10 then digit n else append rest (digit (n % 10))

-- A number has no more digits than it counts.
unfoldable pub decimal : ℕ → String
unfolding decimal_loop
decimal n = decimal_loop n n

-- unicode.ToUpper on the ASCII letters, with which the fields of all rules begin.
abbrev pub to_upper : Char → Char
to_upper c =
    if leb 97 (code c) && leb (code c) 122
    then char_at "ABCDEFGHIJKLMNOPQRSTUVWXYZ" (code c - 97)
    else c

decimal_sample : decimal 1307 ≡ "1307"
unfolding decimal
decimal_sample = refl
