-- ===== src/Base/Text.antt =====
-- Texts. `trim_space` is the standard library's strings.TrimSpace: it drops the leading and the
-- trailing characters that unicode.IsSpace accepts. A text is a sequence of Unicode scalar values.
use Prim.Native.Nat.{ℕ}
use Prim.Native.Char.{Char, code}
use Prim.Native.String.{String, [], ◌∷◌}
use mathlib.Core.Path.{◌≡◌, refl}
use mathlib.Core.Logic.{inl, inr}
use mathlib.Core.Bool.{Bool, true, false, ◌&&◌, ◌||◌}
use native.Mathlib.Omega.{arith}
use go_ddd_template.Base.Tests.{leb, ◌==◌, if◌then◌else◌, Bool-cases}

-- The code points of unicode.IsSpace.
pub is_space : ℕ → Bool
is_space c =
    (leb 9 c && leb c 13)
    || c == 0x20
    || c == 0x85
    || c == 0xA0
    || c == 0x1680
    || (leb 0x2000 c && leb c 0x200A)
    || c == 0x2028
    || c == 0x2029
    || c == 0x202F
    || c == 0x205F
    || c == 0x3000

abbrev pub is_empty : String → Bool
is_empty [] = true
is_empty (c ∷ s) = false

pub trim_left : String → String
trim_left [] = []
trim_left (c ∷ s) = let rest = trim_left s in if is_space (code c) then rest else c ∷ s

-- `c` is dropped where nothing that is kept follows it.
abbrev trim_char : Char → String → String
trim_char c rest = if is_space (code c) && is_empty rest then [] else c ∷ rest

pub trim_right : String → String
trim_right [] = []
trim_right (c ∷ s) = trim_char c (trim_right s)

unfoldable pub trim_space : String → String
unfolding trim_left trim_right is_space
trim_space s = trim_right (trim_left s)

trim_right-trim_right : (s : String) → trim_right (trim_right s) ≡ trim_right s
unfolding trim_right
trim_right-trim_right [] = refl
trim_right-trim_right (c ∷ s) = ground (arith, trim_right-trim_right s)

abbrev LeftTrimmed : String → Type 0
LeftTrimmed [] = Unit
LeftTrimmed (c ∷ s) = is_space (code c) ≡ false

trim_left-LeftTrimmed : (s : String) → LeftTrimmed (trim_left s)
unfolding trim_left
trim_left-LeftTrimmed [] = tt
trim_left-LeftTrimmed (c ∷ s) = elim (Bool-cases (is_space (code c))) [
  | inl e ↦ rw (e, trim_left) (trim_left-LeftTrimmed s)
  | inr e ↦ rw (e, trim_left) e
]

trim_left_of_LeftTrimmed : (s : String) → LeftTrimmed s → trim_left s ≡ s
unfolding trim_left
trim_left_of_LeftTrimmed [] h = refl
trim_left_of_LeftTrimmed (c ∷ s) h = rw h

trim_right-LeftTrimmed : (s : String) → LeftTrimmed s → LeftTrimmed (trim_right s)
unfolding trim_right
trim_right-LeftTrimmed [] h = tt
trim_right-LeftTrimmed (c ∷ s) h = rw h h

-- Trimming a trimmed text changes nothing.
pub trim_space_idem : (s : String) → trim_space (trim_space s) ≡ trim_space s
unfolding trim_space
trim_space_idem s = rw (
  trim_left_of_LeftTrimmed (trim_right (trim_left s))
      (trim_right-LeftTrimmed (trim_left s) (trim_left-LeftTrimmed s)),
  trim_right-trim_right (trim_left s),
)

trim_sample : trim_space "  SKU 1\t" ≡ "SKU 1"
unfolding trim_space
trim_sample = refl
