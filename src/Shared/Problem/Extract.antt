-- ===== src/Shared/Problem/Extract.antt =====
-- The fields that break the contract, from an error of the generated server:
-- shared/problem/ogenproblem/extract.go. The texts of an error are those of ogen, an argument.
pub mod Leaves
use Prim.Native.Char.{code}
use Prim.Native.String.{[] as empty, ◌∷◌ as cons}
use go_ddd_template.Base.{
  ℕ, zero, suc, ◌-◌, ◌+◌, String, Bool, true, false, ◌&&◌, ◌==◌, Option, none, some, List, [], ◌∷◌,
  ◌++◌, map, is_empty, if◌then◌else◌, ◌≡◌, refl, ap, ◌∙◌, sym, arith, append-nil, append_assoc,
}
use go_ddd_template.Base.Split.{cut_before}
use go_ddd_template.Shared.Problem.{Param, join_path}

-- The chain of an error: what errors.Is and errors.As tell apart of ogen's. `invalid_fields` is
-- *validate.Error, and a DecodeParamError unwraps to its cause.
mutual
  pub data Fault : Type 0 where
    field_required min_length max_length no_regex_match duplicate_items body_required other_fault :
        Fault
    decode_param : String → Fault → Fault
    wrapped : Fault → Fault
    invalid_fields : FieldFaults → Fault

  pub data FieldFaults : Type 0 where
    no_fields : FieldFaults
    field : String → Fault → FieldFaults → FieldFaults

abbrev pub body_param_name : String
body_param_name = "body"

-- errors.As for *validate.Error: its fields.
unfoldable pub as_fields : Fault → Option FieldFaults
as_fields (invalid_fields fs) = some fs
as_fields (wrapped f) = as_fields f
as_fields (decode_param name f) = as_fields f
as_fields field_required = none
as_fields min_length = none
as_fields max_length = none
as_fields no_regex_match = none
as_fields duplicate_items = none
as_fields body_required = none
as_fields other_fault = none

unfoldable pub as_decode_param : Fault → Option String
as_decode_param (decode_param name f) = some name
as_decode_param (wrapped f) = as_decode_param f
as_decode_param (invalid_fields fs) = none
as_decode_param field_required = none
as_decode_param min_length = none
as_decode_param max_length = none
as_decode_param no_regex_match = none
as_decode_param duplicate_items = none
as_decode_param body_required = none
as_decode_param other_fault = none

unfoldable pub is_body_required : Fault → Bool
is_body_required body_required = true
is_body_required (wrapped f) = is_body_required f
is_body_required (decode_param name f) = is_body_required f
is_body_required (invalid_fields fs) = false
is_body_required field_required = false
is_body_required min_length = false
is_body_required max_length = false
is_body_required no_regex_match = false
is_body_required duplicate_items = false
is_body_required other_fault = false

-- A chain has one of these errors at most.
unfoldable pub code_of : Fault → String
code_of field_required = "required"
code_of min_length = "min_length"
code_of max_length = "max_length"
code_of no_regex_match = "pattern"
code_of duplicate_items = "unique_items"
code_of body_required = "invalid"
code_of other_fault = "invalid"
code_of (invalid_fields fs) = "invalid"
code_of (wrapped f) = code_of f
code_of (decode_param name f) = code_of f

abbrev leaf : List String → Fault → List Param
leaf path f = record { name = join_path path; code = code_of f } ∷ []

-- The loop over the fields; `walk_fault` is one round of it, whose error is unwrapped on the way to
-- the nested fields or to the code.
unfoldable mutual
  pub walk : List String → FieldFaults → List Param
  walk path no_fields = []
  walk path (field name f rest) = walk_fault (path ++ name ∷ []) f ++ walk path rest

  pub walk_fault : List String → Fault → List Param
  walk_fault path (invalid_fields fs) = walk path fs
  walk_fault path (wrapped f) = walk_fault path f
  walk_fault path (decode_param name f) = walk_fault path f
  walk_fault path field_required = leaf path field_required
  walk_fault path min_length = leaf path min_length
  walk_fault path max_length = leaf path max_length
  walk_fault path no_regex_match = leaf path no_regex_match
  walk_fault path duplicate_items = leaf path duplicate_items
  walk_fault path body_required = leaf path body_required
  walk_fault path other_fault = leaf path other_fault

-- What follows a prefix.
unfoldable pub cut_prefix : String → String → Option String
cut_prefix empty s = some s
cut_prefix (cons c p) empty = none
cut_prefix (cons c p) (cons d s) = if code c == code d then cut_prefix p s else none

abbrev text_length : String → ℕ
text_length empty = 0
text_length (cons c s) = suc (text_length s)

abbrev decode_field : String
decode_field = "decode field \""

-- A name of at least one character before a quote.
abbrev named : String × String → Option String
named (name, empty) = none
named (name, cons c s) = if is_empty name then none else some name

abbrev quoted : Option String → Option String
quoted none = none
quoted (some s) = named (cut_before 34 s)

-- The match of decodeFieldRe that begins here: its group.
unfoldable pub match_here : String → Option String
unfolding cut_prefix cut_before
match_here s = quoted (cut_prefix decode_field s)

abbrev skipped : Option String → ℕ
skipped none = 0
skipped (some name) = text_length decode_field + text_length name

abbrev found : Option String → List String → List String
found none names = names
found (some name) names = name ∷ names

-- FindAllStringSubmatch, behind `skip` characters that belong to the match before.
unfoldable pub find_fields : ℕ → String → List String
unfolding match_here
find_fields skip empty = []
find_fields (suc k) (cons c s) = find_fields k s
find_fields zero (cons c s) =
    let here = match_here (cons c s) in found here (find_fields (skipped here) s)

-- full[:i] for i = strings.LastIndex(full, sub), where it is not negative.
unfoldable pub before_last : String → String → Option String
unfolding cut_prefix
before_last sub empty = if is_empty sub then some empty else none
before_last sub (cons c s) = elim (before_last sub s) [
  | some front ↦ some (cons c front)
  | none ↦ elim (cut_prefix sub (cons c s)) [ none ↦ none | some rest ↦ some empty ]
]

-- An error with its text, and the text of the *validate.Error in its chain.
pub record Thrown : Type 0 where
  pub text : String
  pub fields_text : String
  pub fault : Fault

abbrev or_text : String → Option String → String
or_text text none = text
or_text text (some front) = front

-- The path that the texts around the fields give.
unfoldable pub decoded_path : Thrown → List String
unfolding before_last find_fields as_fields
decoded_path t = elim (as_fields t.fault) [
  | none ↦ find_fields 0 t.text
  | some fs ↦ find_fields 0 (or_text t.text (before_last t.fields_text t.text))
]

abbrev pub field_params : List String → Option FieldFaults → List Param
field_params path none = []
field_params path (some fs) = walk path fs

abbrev pub other_params : List String → Fault → List Param
other_params path f = elim (as_decode_param f) [
  | some name ↦ record { name = name; code = "invalid_param" } ∷ []
  | none ↦
      if is_body_required f
      then record { name = body_param_name; code = "body_required" } ∷ []
      else elim path [
        | [] ↦ []
        | first ∷ rest ↦ record { name = join_path (first ∷ rest); code = "type" } ∷ []
      ]
]

-- The empty list is nil.
unfoldable pub extract_params : Thrown → List Param
unfolding decoded_path walk as_fields as_decode_param is_body_required
extract_params t =
    let path = decoded_path t in
    elim (field_params path (as_fields t.fault)) [
      | p ∷ params ↦ p ∷ params
      | [] ↦ other_params path t.fault
    ]
