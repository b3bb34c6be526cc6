-- ===== src/Shared/Problem/JsonPath.antt =====
-- From the place of a violation in the input of a use case to the path in the JSON of the request:
-- toJSONPath and its helpers in contexts/ordering/internal/adapter/inbound/httpapi/problem.go, of
-- which the inventory's two HTTP adapters hold copies. The table `json_names` is a parameter.
use Prim.Native.Char.{Char, code}
use Prim.Native.String.{char_at, [] as empty, ◌∷◌ as cons}
use go_ddd_template.Base.{
  ◌-◌, String, ◌≡◌, refl, leb, ◌&&◌, none, some, List, [], ◌∷◌, is_empty, if◌then◌else◌,
}
use go_ddd_template.Base.Dict.{Dict, lookup}
use go_ddd_template.Base.Split.{split_on, cut_before}
use go_ddd_template.Shared.Problem.{join_path}

-- unicode.ToLower on the ASCII letters, with which the fields of all inputs begin.
abbrev pub to_lower : Char → Char
to_lower c =
    if leb 65 (code c) && leb (code c) 90
    then char_at "abcdefghijklmnopqrstuvwxyz" (code c - 65)
    else c

unfoldable pub lower_first : String → String
lower_first empty = ""
lower_first (cons c s) = cons (to_lower c) s

-- The name and the index of a segment: before the first "[", and from it on.
unfoldable pub split_index : String → String × String
unfolding cut_before
split_index seg = cut_before 91 seg

module _ (json_names : Dict String) where
  unfoldable pub json_name_of : String → String
  unfolding lookup lower_first
  json_name_of name = elim (lookup name json_names) [
    | none ↦ lower_first name
    | some mapped ↦ mapped
  ]

  -- The segments of one part: its name, and its index where it has one.
  abbrev pub json_segments : String × String → List String → List String
  json_segments (name, index) rest =
      json_name_of name ∷ (if is_empty index then rest else index ∷ rest)

  unfoldable pub json_loop : List String → List String
  unfolding split_index json_name_of
  json_loop [] = []
  json_loop (s ∷ segs) = json_segments (split_index s) (json_loop segs)

  unfoldable pub to_json_path : String → String
  unfolding split_on json_loop join_path
  to_json_path path = join_path (json_loop (split_on 46 path))

sample : to_json_path [] "Lines[12].UnitPrice.Amount" ≡ "lines[12].unitPrice.amount"
unfolding to_json_path
sample = refl
