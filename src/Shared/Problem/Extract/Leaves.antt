-- ===== src/Shared/Problem/Extract/Leaves.antt =====
-- What the walk over the nested fields finds: walk in shared/problem/ogenproblem/extract.go.
use go_ddd_template.Base.{
  Option, none, ◌∙◌, String, some, List, [], ◌∷◌, ◌++◌, map, ◌≡◌, refl, ap, arith, append-nil,
  append_assoc,
}
use go_ddd_template.Shared.Problem.{Param, join_path}
use go_ddd_template.Shared.Problem.Extract.{
  Fault, FieldFaults, field_required, min_length, max_length, no_regex_match, duplicate_items,
  body_required, other_fault, decode_param, wrapped, invalid_fields, no_fields, field, code_of,
  walk, walk_fault, as_fields, Thrown, decoded_path, extract_params,
}

abbrev below : String → List (List String × String) → List (List String × String)
below name leaves = map (λ (p, f). (name ∷ p, f)) leaves

-- The faults that have no fields of their own, in their order, each with the names on the way to it and its
-- code.
unfoldable mutual
  pub leaves : FieldFaults → List (List String × String)
  leaves no_fields = []
  leaves (field name f rest) = below name (leaves_of f) ++ leaves rest

  pub leaves_of : Fault → List (List String × String)
  leaves_of (invalid_fields fs) = leaves fs
  leaves_of (wrapped f) = leaves_of f
  leaves_of (decode_param name f) = leaves_of f
  leaves_of field_required = ([], "required") ∷ []
  leaves_of min_length = ([], "min_length") ∷ []
  leaves_of max_length = ([], "max_length") ∷ []
  leaves_of no_regex_match = ([], "pattern") ∷ []
  leaves_of duplicate_items = ([], "unique_items") ∷ []
  leaves_of body_required = ([], "invalid") ∷ []
  leaves_of other_fault = ([], "invalid") ∷ []

abbrev pub param_of : List String → List String × String → Param
param_of path (p, code) = record { name = join_path (path ++ p); code = code }

params-below :
    (path : List String) (name : String) (ls : List (List String × String))
    → map (param_of path) (below name ls) ≡ map (param_of (path ++ name ∷ [])) ls
params-below path name [] = refl
params-below path name ((p, f) ∷ ls) =
    ground (arith, params-below path name ls, append_assoc path (name ∷ []) p)

params-append :
    (path : List String) (xs ys : List (List String × String))
    → map (param_of path) (xs ++ ys) ≡ map (param_of path) xs ++ map (param_of path) ys
params-append path [] ys = refl
params-append path (x ∷ xs) ys = ap (λ ps. param_of path x ∷ ps) (params-append path xs ys)

mutual
  unfolding walk leaves code_of

  walk-leaves :
      (path : List String) (fs : FieldFaults) → walk path fs ≡ map (param_of path) (leaves fs)
  walk-leaves path no_fields = refl
  walk-leaves path (field name f rest) =
      rw
        (
          params-append path (below name (leaves_of f)) (leaves rest),
          params-below path name (leaves_of f),
          walk_fault-leaves_of (path ++ name ∷ []) f,
          walk-leaves path rest,
        )
        refl

  walk_fault-leaves_of :
      (path : List String) (f : Fault) → walk_fault path f ≡ map (param_of path) (leaves_of f)
  walk_fault-leaves_of path (invalid_fields fs) = walk-leaves path fs
  walk_fault-leaves_of path (wrapped f) = walk_fault-leaves_of path f
  walk_fault-leaves_of path (decode_param name f) = walk_fault-leaves_of path f
  walk_fault-leaves_of path field_required = ground (arith, append-nil path)
  walk_fault-leaves_of path min_length = ground (arith, append-nil path)
  walk_fault-leaves_of path max_length = ground (arith, append-nil path)
  walk_fault-leaves_of path no_regex_match = ground (arith, append-nil path)
  walk_fault-leaves_of path duplicate_items = ground (arith, append-nil path)
  walk_fault-leaves_of path body_required = ground (arith, append-nil path)
  walk_fault-leaves_of path other_fault = ground (arith, append-nil path)

-- The errors around another: a decode_param error with its name, or any other wrapper.
abbrev pub inside : List (Option String) → Fault → Fault
inside [] f = f
inside (none ∷ layers) f = wrapped (inside layers f)
inside (some name ∷ layers) f = decode_param name (inside layers f)

as_fields-inside :
    (layers : List (Option String)) (fs : FieldFaults)
    → as_fields (inside layers (invalid_fields fs)) ≡ some fs
unfolding as_fields
as_fields-inside [] fs = refl
as_fields-inside (none ∷ layers) fs = as_fields-inside layers fs
as_fields-inside (some name ∷ layers) fs = as_fields-inside layers fs

-- From an error that wraps, in any layers, a validate.Error of whose fields at least one has,
-- itself or below it, an error without fields: ExtractParams gives one parameter for each error
-- without fields, in their order, and no other. Its name is the path that the text of the error
-- decodes to, followed by the names on the way to the error, and its code is the one that its kind
-- has: required, min_length, max_length, pattern, unique_items or invalid.
pub extract_params-leaves :
    (t : Thrown) (layers : List (Option String)) (fs : FieldFaults) (l : List String × String)
    (ls : List (List String × String))
    → t.fault ≡ inside layers (invalid_fields fs)
    → leaves fs ≡ l ∷ ls
    → extract_params t ≡ map (param_of (decoded_path t)) (leaves fs)
unfolding extract_params
extract_params-leaves t layers fs l ls h e =
    let found = ap as_fields h ∙ as_fields-inside layers fs in
    ground (arith, found, e, walk-leaves (decoded_path t) fs)
