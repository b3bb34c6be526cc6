-- ===== src/Inventory/Errors.antt =====
-- Errors of the inventory context: domain/errors.go, and the error of application/validation.go.
-- An error is the chain that errors.Is and errors.As walk; its message texts are left out, since
-- no code reads them.
use go_ddd_template.Base.{ℕ, String, Bool, true, false, Option, none, some, List, ◌==◌}

-- The sentinel errors.
pub data Sentinel : Type 0 where
  stock_item_not_found invalid_sku invalid_quantity invalid_reservation_ref : Sentinel
  insufficient_stock reservation_not_found : Sentinel

abbrev pub sentinel_index : Sentinel → ℕ
sentinel_index stock_item_not_found = 0
sentinel_index invalid_sku = 1
sentinel_index invalid_quantity = 2
sentinel_index invalid_reservation_ref = 3
sentinel_index insufficient_stock = 4
sentinel_index reservation_not_found = 5

-- A validation rule: the field in the domain's words, the stable code, and the sentinel.
pub record Rule : Type 0 where
  pub field : String
  pub code : String
  pub cause : Sentinel

-- A place in the input, as the application layer names it, with the rule's code.
pub record PathViolation : Type 0 where
  pub path : String
  pub code : String

pub data Error : Type 0 where
  sentinel : Sentinel → Error
  wrapped : Error → Error
  field_violation : Rule → Option ℕ → Error → Error
  validation_error : List PathViolation → Error → Error
  concurrency_conflict : Error
  -- outbox.ErrNoRoute
  no_route : Error
  other_error : Error
  -- the run-time panic of a nil pointer, which no caller handles
  nil_pointer : Error

-- Rule.wrap: a text with the sentinel behind it.
abbrev pub rule_wrap : Rule → Error
rule_wrap r = wrapped (sentinel r.cause)

abbrev pub violated : Rule → Error
violated r = field_violation r none (rule_wrap r)

abbrev pub violated_at : Rule → ℕ → Error
violated_at r i = field_violation r (some i) (rule_wrap r)

abbrev pub v_sku : Rule
v_sku = record { field = "sku"; code = "invalid_sku"; cause = invalid_sku }

abbrev pub v_quantity : Rule
v_quantity = record { field = "quantity"; code = "invalid_quantity"; cause = invalid_quantity }

abbrev pub v_reservation_ref : Rule
v_reservation_ref = record {
  field = "reservationRef";
  code = "invalid_reservation_ref";
  cause = invalid_reservation_ref;
}

-- errors.Is(err, target) for a sentinel of the domain.
unfoldable pub is_sentinel : Error → Sentinel → Bool
is_sentinel (sentinel s) t = sentinel_index s == sentinel_index t
is_sentinel (wrapped e) t = is_sentinel e t
is_sentinel (field_violation r i e) t = is_sentinel e t
is_sentinel (validation_error vs e) t = is_sentinel e t
is_sentinel concurrency_conflict t = false
is_sentinel no_route t = false
is_sentinel other_error t = false
is_sentinel nil_pointer t = false

-- errors.Is(err, uow.ErrConcurrencyConflict)
unfoldable pub is_conflict : Error → Bool
is_conflict (sentinel s) = false
is_conflict (wrapped e) = is_conflict e
is_conflict (field_violation r i e) = is_conflict e
is_conflict (validation_error vs e) = is_conflict e
is_conflict concurrency_conflict = true
is_conflict no_route = false
is_conflict other_error = false
is_conflict nil_pointer = false

-- errors.Is(err, outbox.ErrNoRoute)
unfoldable pub is_no_route : Error → Bool
is_no_route (sentinel s) = false
is_no_route (wrapped e) = is_no_route e
is_no_route (field_violation r i e) = is_no_route e
is_no_route (validation_error vs e) = is_no_route e
is_no_route concurrency_conflict = false
is_no_route no_route = true
is_no_route other_error = false
is_no_route nil_pointer = false
