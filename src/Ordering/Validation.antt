-- ===== src/Ordering/Validation.antt =====
-- Where a violation of a rule stands in the input of a use case: application/validation.go.
use go_ddd_template.Base.{
  ℕ, String, Bool, true, false, Option, none, some, List, [], ◌∷◌, ◌||◌, is_empty, str_eq, concat,
  decimal, to_upper, ◌≡◌, ◌⊎◌, inl, inr, Bool-cases, Option-cases, arith, if◌then◌else◌,
}
use Prim.Native.String.{◌∷◌ as cons, [] as empty}
use go_ddd_template.Ordering.Errors.{
  Error, sentinel, wrapped, field_violation, validation_error, concurrency_conflict, other_error,
  port_error, client_error, joined, Rule, PathViolation, Sentinel, is_sentinel, is_conflict,
}

-- errors.As for a ValidationError: whether there is one in the chain.
unfoldable pub is_validation : Error → Bool
is_validation (sentinel s) = false
is_validation (wrapped e) = is_validation e
is_validation (field_violation r i e) = is_validation e
is_validation (validation_error vs e) = true
is_validation concurrency_conflict = false
is_validation (port_error p) = false
is_validation (client_error c) = false
is_validation (joined d e) = is_validation d || is_validation e
is_validation other_error = false

-- errors.As of a Join: the first error of the chain in depth-first order.
abbrev pub or_else {ℓ} : {A : Type ℓ} → Option A → Option A → Option A
or_else none o = o
or_else (some a) o = some a

-- errors.As for a ValidationError: the violations of the first in the chain.
unfoldable pub as_validation : Error → Option (List PathViolation)
as_validation (sentinel s) = none
as_validation (wrapped e) = as_validation e
as_validation (field_violation r i e) = as_validation e
as_validation (validation_error vs e) = some vs
as_validation concurrency_conflict = none
as_validation (port_error p) = none
as_validation (client_error c) = none
as_validation (joined d e) = or_else (as_validation d) (as_validation e)
as_validation other_error = none

-- errors.As for a domain.FieldViolation: the first in the chain.
unfoldable pub as_field_violation : Error → Option (Rule × Option ℕ)
as_field_violation (sentinel s) = none
as_field_violation (wrapped e) = as_field_violation e
as_field_violation (field_violation r i e) = some (r, i)
as_field_violation (validation_error vs e) = as_field_violation e
as_field_violation concurrency_conflict = none
as_field_violation (port_error p) = none
as_field_violation (client_error c) = none
as_field_violation (joined d e) = or_else (as_field_violation d) (as_field_violation e)
as_field_violation other_error = none

unfoldable pub line_path : ℕ → String
unfolding decimal
line_path i = concat "Lines[" (concat (decimal i) "]")

unfoldable pub join_dto_path : String → String → String
join_dto_path at seg = if is_empty at then seg else concat at (concat "." seg)

unfoldable pub upper_first : String → String
upper_first empty = ""
upper_first (cons c s) = cons (to_upper c) s

-- dtoPaths has the two entries.
unfoldable pub dto_segment : String → String
unfolding upper_first
dto_segment field =
    if str_eq field "amount"
    then "UnitPrice.Amount"
    else if str_eq field "currency"
    then "UnitPrice.Currency"
    else upper_first field

-- The violation with the path of the place that it is at.
abbrev pub located_at : String → Rule × Option ℕ → PathViolation
located_at at (r, index) = record {
  path = join_dto_path (elim index [ none ↦ at | some i ↦ line_path i ]) (dto_segment r.field);
  code = r.code;
}

unfoldable pub locate : String → Error → Error
unfolding is_validation as_field_violation line_path join_dto_path dto_segment
locate at e = if is_validation e then e else elim (as_field_violation e) [
  | none ↦ e
  | some v ↦ validation_error (located_at at v ∷ []) e
]

-- The ordering context's `locate` changes no answer of errors.Is: the sentinel and the conflict
-- behind an error are the same, and a second `locate` changes nothing.
pub locate_chain :
    (at at' : String) (e : Error) (s : Sentinel)
    → (is_sentinel (locate at e) s ≡ is_sentinel e s)
      × (is_conflict (locate at e) ≡ is_conflict e)
      × (locate at' (locate at e) ≡ locate at e)
unfolding locate is_sentinel is_conflict is_validation
locate_chain at at' e s = ground arith

pub locate_cases :
    (at : String) (e : Error)
    → (locate at e ≡ e) ⊎ ((vs : List PathViolation) × (locate at e ≡ validation_error vs e))
unfolding locate
locate_cases at e = elim (Bool-cases (is_validation e)) [
  | inl y ↦ inl (ground (arith, y))
  | inr n ↦ elim (Option-cases (as_field_violation e)) [
    | inl no_violation ↦ inl (ground (arith, n, no_violation))
    | inr (v, found) ↦ inr (located_at at v ∷ [], ground (arith, n, found))
  ]
]
