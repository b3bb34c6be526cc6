-- ===== src/Inventory/Validation.antt =====
-- Where a violation of a rule stands in the input of a use case: application/validation.go.
use go_ddd_template.Base.{
  ℕ, String, Bool, true, false, Option, none, some, List, [], ◌∷◌, is_empty, str_eq, concat,
  decimal, to_upper, ◌≡◌, ◌⊎◌, inl, inr, Bool-cases, Option-cases, arith, if◌then◌else◌,
}
use Prim.Native.String.{◌∷◌ as cons, [] as empty}
use go_ddd_template.Inventory.Errors.{
  Error, sentinel, wrapped, field_violation, validation_error, concurrency_conflict, no_route,
  other_error, nil_pointer, Rule, PathViolation, Sentinel, is_sentinel, is_conflict,
}

-- errors.As for a ValidationError: whether there is one in the chain.
unfoldable pub is_validation : Error → Bool
is_validation (sentinel s) = false
is_validation (wrapped e) = is_validation e
is_validation (field_violation r i e) = is_validation e
is_validation (validation_error vs e) = true
is_validation concurrency_conflict = false
is_validation no_route = false
is_validation other_error = false
is_validation nil_pointer = false

-- errors.As for a ValidationError: the violations of the first in the chain.
unfoldable pub as_validation : Error → Option (List PathViolation)
as_validation (sentinel s) = none
as_validation (wrapped e) = as_validation e
as_validation (field_violation r i e) = as_validation e
as_validation (validation_error vs e) = some vs
as_validation concurrency_conflict = none
as_validation no_route = none
as_validation other_error = none
as_validation nil_pointer = none

-- errors.As for a domain.FieldViolation: the first in the chain.
unfoldable pub as_field_violation : Error → Option (Rule × Option ℕ)
as_field_violation (sentinel s) = none
as_field_violation (wrapped e) = as_field_violation e
as_field_violation (field_violation r i e) = some (r, i)
as_field_violation (validation_error vs e) = as_field_violation e
as_field_violation concurrency_conflict = none
as_field_violation no_route = none
as_field_violation other_error = none
as_field_violation nil_pointer = none

unfoldable pub line_path : ℕ → String
unfolding decimal
line_path i = concat "Lines[" (concat (decimal i) "]")

unfoldable pub join_dto_path : String → String → String
join_dto_path at seg = if is_empty at then seg else concat at (concat "." seg)

unfoldable pub upper_first : String → String
upper_first empty = ""
upper_first (cons c s) = cons (to_upper c) s

-- dtoPaths has the one entry.
unfoldable pub dto_segment : String → String
unfolding upper_first
dto_segment field = if str_eq field "reservationRef" then "Ref" else upper_first field

-- The violation with the path of the place that it is at.
abbrev pub located_at : String → Rule × Option ℕ → PathViolation
located_at at (r, index) = record {
  path = join_dto_path (elim index [ none ↦ at | some i ↦ line_path i ]) (dto_segment r.field);
  code = r.code;
}

unfoldable pub locate : String → Error → Error
unfolding is_validation as_field_violation line_path join_dto_path dto_segment
locate at e = if is_validation e then e else elim (as_field_violation e) [
  | none ↦ e
  | some v ↦ validation_error (located_at at v ∷ []) e
]

-- The inventory's `locate` changes no answer of errors.Is: the sentinel and the conflict behind an
-- error are the same, and a second `locate` changes nothing.
pub locate_keeps :
    (at at' : String) (e : Error) (s : Sentinel)
    → (is_sentinel (locate at e) s ≡ is_sentinel e s)
      × (is_conflict (locate at e) ≡ is_conflict e)
      × (locate at' (locate at e) ≡ locate at e)
unfolding locate is_sentinel is_conflict is_validation
locate_keeps at at' e s = ground arith

pub locate_cases :
    (at : String) (e : Error)
    → (locate at e ≡ e) ⊎ ((vs : List PathViolation) × (locate at e ≡ validation_error vs e))
unfolding locate
locate_cases at e = elim (Bool-cases (is_validation e)) [
  | inl y ↦ inl (ground (arith, y))
  | inr n ↦ elim (Option-cases (as_field_violation e)) [
    | inl no_violation ↦ inl (ground (arith, n, no_violation))
    | inr (v, found) ↦ inr (located_at at v ∷ [], ground (arith, n, found))
  ]
]
