-- ===== src/Shared/Problem/LinePath.antt =====
-- The JSON path of a violation in a line of the input, for every line.
use Prim.Native.Char.{Char}
use Prim.Native.String.{char_at, [] as empty, ◌∷◌ as cons}
use text.Mathlib.TextLemmas.{nil-append, cons-append, append_assoc}
use go_ddd_template.Base.{
  ℕ, String, true, false, ◌&&◌, ◌≡◌, refl, sym, ap, ◌∙◌, none, [], ◌∷◌, is_empty, concat, decimal,
  arith,
}
use go_ddd_template.Base.Dict.{Dict, lookup}
use go_ddd_template.Base.Split.{
  split_on, split_on-concat, free_of, free_of-concat, cut_before-concat,
}
use go_ddd_template.Base.Digits.{decimal-free_of}
use go_ddd_template.Shared.Problem.{join_path, join_loop, add_segment, is_index}
use go_ddd_template.Shared.Problem.JsonPath.{
  to_json_path, json_loop, json_name_of, json_segments, split_index, lower_first,
}

abbrev dot : Char
dot = char_at "." 0

abbrev bracket : Char
bracket = char_at "[" 0

pub cons-concat : (c : Char) (s t : String) → concat (cons c s) t ≡ cons c (concat s t)
cons-concat c s t = cons-append c s t

pub empty-concat : (t : String) → concat "" t ≡ t
empty-concat t = nil-append t

dot-concat : (t : String) → concat "." t ≡ cons dot t
dot-concat t = cons-append dot "" t ∙ ap (cons dot) (nil-append t)

-- The index of a line, in its brackets.
abbrev pub line_index : ℕ → String
line_index i = cons bracket (concat (decimal i) "]")

-- The names that validation.go gives to the lines.
abbrev pub dto_line : ℕ → String
dto_line i = concat "Lines[" (concat (decimal i) "]")

dto_line_parts : (i : ℕ) → dto_line i ≡ concat "Lines" (line_index i)
dto_line_parts i =
    append_assoc "Lines" "[" (concat (decimal i) "]")
    ∙ ap (concat "Lines") (
        cons-append bracket "" (concat (decimal i) "]")
        ∙ ap (cons bracket) (nil-append (concat (decimal i) "]")))

dto_line-free_of : (i : ℕ) → free_of 46 (dto_line i) ≡ true
dto_line-free_of i =
    free_of-concat 46 "Lines[" (concat (decimal i) "]") refl
      (free_of-concat 46 (decimal i) "]" (decimal-free_of 46 i refl) refl)

split_index_line : (i : ℕ) → split_index (dto_line i) ≡ ("Lines", line_index i)
unfolding split_index
split_index_line i =
    ap split_index (dto_line_parts i)
    ∙ cut_before-concat 91 "Lines" bracket (concat (decimal i) "]") refl refl

pub is_empty-concat : (s t : String) → is_empty (concat s t) ≡ (is_empty s && is_empty t)
is_empty-concat empty t = ap is_empty (nil-append t)
is_empty-concat (cons c s) t = ap is_empty (cons-append c s t)

add_field :
    (b : String) (c : Char) (s : String)
    → is_empty b ≡ false
    → is_index (cons c s) ≡ false
    → add_segment b (cons c s) ≡ concat b (cons dot (cons c s))
add_field b c s h k = rw (h, k) (ap (concat b) (dot-concat (cons c s)))

-- The names of the lines in the JSON of the request.
abbrev pub json_line : ℕ → String
json_line i = concat "lines[" (concat (decimal i) "]")

json_line_parts : (i : ℕ) → concat "lines" (line_index i) ≡ json_line i
json_line_parts i = sym (
    append_assoc "lines" "[" (concat (decimal i) "]")
    ∙ ap (concat "lines") (
        cons-append bracket "" (concat (decimal i) "]")
        ∙ ap (cons bracket) (nil-append (concat (decimal i) "]"))))

pub json_line_nonempty : (i : ℕ) → is_empty (json_line i) ≡ false
json_line_nonempty i = is_empty-concat "lines[" (concat (decimal i) "]")

pub json_name_of_plain :
    (json_names : Dict String) (name : String)
    → lookup name json_names ≡ none
    → json_name_of json_names name ≡ lower_first name
unfolding json_name_of
json_name_of_plain json_names name h = ground (arith, h)

-- The path below a line.
pub to_json_path_line :
    (json_names : Dict String) (i : ℕ) (dto : String)
    → lookup "Lines" json_names ≡ none
    → to_json_path json_names (concat (dto_line i) (concat "." dto))
      ≡ join_loop (json_line i) (json_loop json_names (split_on 46 dto))
unfolding to_json_path
to_json_path_line json_names i dto h =
    ap (λ p. join_path (json_loop json_names (split_on 46 (concat (dto_line i) p))))
      (dot-concat dto)
    ∙ ap (λ ps. join_path (json_loop json_names ps))
        (split_on-concat 46 (dto_line i) dot dto (dto_line-free_of i) refl)
    ∙ ap (λ q. join_path (json_segments json_names q (json_loop json_names (split_on 46 dto))))
        (split_index_line i)
    ∙ ap (λ n. join_path (n ∷ line_index i ∷ json_loop json_names (split_on 46 dto)))
        (json_name_of_plain json_names "Lines" h)
    ∙ ap (λ b. join_loop b (json_loop json_names (split_on 46 dto))) (json_line_parts i)

-- One name behind a line, and two.
pub join_one :
    (i : ℕ) (c : Char) (s : String)
    → is_index (cons c s) ≡ false
    → join_loop (json_line i) (cons c s ∷ []) ≡ concat (json_line i) (cons dot (cons c s))
unfolding join_loop
join_one i c s k = add_field (json_line i) c s (json_line_nonempty i) k

pub join_two :
    (i : ℕ) (c : Char) (s : String) (d : Char) (t : String)
    → is_index (cons c s) ≡ false
    → is_index (cons d t) ≡ false
    → join_loop (json_line i) (cons c s ∷ cons d t ∷ [])
      ≡ concat (json_line i) (concat (cons dot (cons c s)) (cons dot (cons d t)))
unfolding join_loop
join_two i c s d t k l =
    ap (λ b. add_segment b (cons d t)) (add_field (json_line i) c s (json_line_nonempty i) k)
    ∙ add_field (concat (json_line i) (cons dot (cons c s))) d t
        (is_empty-concat (json_line i) (cons dot (cons c s)) ∙ ground (arith, json_line_nonempty i))
        l
    ∙ append_assoc (json_line i) (cons dot (cons c s)) (cons dot (cons d t))
