-- ===== src/Base/Split.antt =====
-- Texts cut at a character: strings.Split with a separator of one ASCII character, and the cut
-- before its first occurrence. A character is given by its code.
use Prim.Native.Nat.{ℕ}
use Prim.Native.Char.{Char, code}
use Prim.Native.String.{String, [] as empty, ◌∷◌ as cons}
use mathlib.Core.Path.{◌≡◌, refl, ap, ◌∙◌}
use mathlib.Core.Bool.{Bool, true, not, ◌&&◌}
use mathlib.Core.List.{List, [], ◌∷◌}
use native.Mathlib.Omega.{arith}
use text.Mathlib.TextLemmas.{nil-append, cons-append}
use go_ddd_template.Base.Tests.{◌==◌, if◌then◌else◌}
use go_ddd_template.Base.Paths.{concat}

-- No character of the text has the code.
abbrev pub free_of : ℕ → String → Bool
free_of c empty = true
free_of c (cons d s) = not (code d == c) && free_of c s

abbrev cons_first : Char → List String → List String
cons_first d [] = cons d empty ∷ []
cons_first d (part ∷ parts) = cons d part ∷ parts

-- strings.Split
unfoldable pub split_on : ℕ → String → List String
split_on c empty = empty ∷ []
split_on c (cons d s) =
    let parts = split_on c s in if code d == c then empty ∷ parts else cons_first d parts

-- s[:i] and s[i:] for the first place `i` of the character, or the whole text and nothing.
unfoldable pub cut_before : ℕ → String → String × String
cut_before c empty = (empty, empty)
cut_before c (cons d s) =
    let (front, rest) = cut_before c s in
    if code d == c then (empty, cons d s) else (cons d front, rest)

pub free_of-concat :
    (c : ℕ) (s t : String) → free_of c s ≡ true → free_of c t ≡ true → free_of c (concat s t) ≡ true
free_of-concat c empty t h k = ap (free_of c) (nil-append t) ∙ k
free_of-concat c (cons d s) t h k =
    ap (free_of c) (cons-append d s t) ∙ ground (arith, free_of-concat c s t)

-- A text without the separator is one part.
pub split_on_free : (c : ℕ) (s : String) → free_of c s ≡ true → split_on c s ≡ s ∷ []
unfolding split_on
split_on_free c empty h = refl
split_on_free c (cons d s) h = ground (arith, split_on_free c s)

-- A text without the separator, before a separator, is the first part.
pub split_on-concat :
    (c : ℕ) (s : String) (d : Char) (t : String)
    → free_of c s ≡ true
    → (code d == c) ≡ true
    → split_on c (concat s (cons d t)) ≡ s ∷ split_on c t
unfolding split_on
split_on-concat c empty d t h k = ap (split_on c) (nil-append (cons d t)) ∙ ground arith
split_on-concat c (cons b s) d t h k =
    ap (split_on c) (cons-append b s (cons d t)) ∙ ground (arith, split_on-concat c s d t)

pub cut_before_free : (c : ℕ) (s : String) → free_of c s ≡ true → cut_before c s ≡ (s, empty)
unfolding cut_before
cut_before_free c empty h = refl
cut_before_free c (cons d s) h = ground (arith, cut_before_free c s)

pub cut_before-concat :
    (c : ℕ) (s : String) (d : Char) (t : String)
    → free_of c s ≡ true
    → (code d == c) ≡ true
    → cut_before c (concat s (cons d t)) ≡ (s, cons d t)
unfolding cut_before
cut_before-concat c empty d t h k = ap (cut_before c) (nil-append (cons d t)) ∙ ground arith
cut_before-concat c (cons b s) d t h k =
    ap (cut_before c) (cons-append b s (cons d t)) ∙ ground (arith, cut_before-concat c s d t)
