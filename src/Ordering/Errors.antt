-- ===== src/Ordering/Errors.antt =====
-- Errors of the ordering context: domain/errors.go, and the error of application/validation.go. It
-- has the shape of the inventory's errors and shares nothing with them, as in the source.
use go_ddd_template.Base.{ℕ, String, Bool, true, false, Option, none, some, List, ◌==◌, ◌||◌}

pub data Sentinel : Type 0 where
  empty_order order_not_confirmed order_not_found invalid_order_id invalid_customer_id : Sentinel
  invalid_sku invalid_quantity invalid_money invalid_reservation_ref : Sentinel
  shipment_not_found shipment_not_preparing invalid_shipment_id : Sentinel
  invalid_tracking_number : Sentinel

abbrev pub sentinel_index : Sentinel → ℕ
sentinel_index empty_order = 0
sentinel_index order_not_confirmed = 1
sentinel_index order_not_found = 2
sentinel_index invalid_order_id = 3
sentinel_index invalid_customer_id = 4
sentinel_index invalid_sku = 5
sentinel_index invalid_quantity = 6
sentinel_index invalid_money = 7
sentinel_index invalid_reservation_ref = 8
sentinel_index shipment_not_found = 9
sentinel_index shipment_not_preparing = 10
sentinel_index invalid_shipment_id = 11
sentinel_index invalid_tracking_number = 12

pub record Rule : Type 0 where
  pub field : String
  pub code : String
  pub cause : Sentinel

pub record PathViolation : Type 0 where
  pub path : String
  pub code : String

-- The errors of port/reserver.go and of application/errors.go.
pub data PortError : Type 0 where
  reservation_rejected reservation_unavailable order_not_confirmed_for_shipment : PortError

abbrev pub port_error_index : PortError → ℕ
port_error_index reservation_rejected = 0
port_error_index reservation_unavailable = 1
port_error_index order_not_confirmed_for_shipment = 2

-- An error of the generated HTTP client: a problem response with its status, a wrapped error, or an
-- error of the transport.
pub data ClientError : Type 0 where
  problem_response : ℕ → ClientError
  client_wrapped : ClientError → ClientError
  transport_error : ClientError

pub data Error : Type 0 where
  sentinel : Sentinel → Error
  wrapped : Error → Error
  field_violation : Rule → Option ℕ → Error → Error
  validation_error : List PathViolation → Error → Error
  concurrency_conflict : Error
  port_error : PortError → Error
  client_error : ClientError → Error
  -- errors.Join of two; of three, the second is a Join again
  joined : Error → Error → Error
  other_error : Error

abbrev pub rule_wrap : Rule → Error
rule_wrap r = wrapped (sentinel r.cause)

abbrev pub violated : Rule → Error
violated r = field_violation r none (rule_wrap r)

abbrev pub violated_at : Rule → ℕ → Error
violated_at r i = field_violation r (some i) (rule_wrap r)

abbrev pub v_empty_order : Rule
v_empty_order = record { field = "lines"; code = "empty_order"; cause = empty_order }

abbrev pub v_sku : Rule
v_sku = record { field = "sku"; code = "invalid_sku"; cause = invalid_sku }

abbrev pub v_quantity : Rule
v_quantity = record { field = "quantity"; code = "invalid_quantity"; cause = invalid_quantity }

abbrev pub v_money_amount : Rule
v_money_amount = record { field = "amount"; code = "invalid_money_amount"; cause = invalid_money }

abbrev pub v_money_currency : Rule
v_money_currency = record {
  field = "currency";
  code = "invalid_money_currency";
  cause = invalid_money;
}

abbrev pub v_customer_id : Rule
v_customer_id = record {
  field = "customerId";
  code = "invalid_customer_id";
  cause = invalid_customer_id;
}

abbrev pub v_order_id : Rule
v_order_id = record { field = "orderId"; code = "invalid_order_id"; cause = invalid_order_id }

abbrev pub v_reservation_ref : Rule
v_reservation_ref = record {
  field = "reservationRef";
  code = "invalid_reservation_ref";
  cause = invalid_reservation_ref;
}

abbrev pub v_shipment_id : Rule
v_shipment_id = record {
  field = "shipmentId";
  code = "invalid_shipment_id";
  cause = invalid_shipment_id;
}

abbrev pub v_tracking_number : Rule
v_tracking_number = record {
  field = "trackingNumber";
  code = "invalid_tracking_number";
  cause = invalid_tracking_number;
}

-- errors.Is(err, target) for a sentinel of the domain.
unfoldable pub is_sentinel : Error → Sentinel → Bool
is_sentinel (sentinel s) t = sentinel_index s == sentinel_index t
is_sentinel (wrapped e) t = is_sentinel e t
is_sentinel (field_violation r i e) t = is_sentinel e t
is_sentinel (validation_error vs e) t = is_sentinel e t
is_sentinel concurrency_conflict t = false
is_sentinel (port_error p) t = false
is_sentinel (client_error c) t = false
is_sentinel (joined d e) t = is_sentinel d t || is_sentinel e t
is_sentinel other_error t = false

-- errors.Is(err, uow.ErrConcurrencyConflict)
unfoldable pub is_conflict : Error → Bool
is_conflict (sentinel s) = false
is_conflict (wrapped e) = is_conflict e
is_conflict (field_violation r i e) = is_conflict e
is_conflict (validation_error vs e) = is_conflict e
is_conflict concurrency_conflict = true
is_conflict (port_error p) = false
is_conflict (client_error c) = false
is_conflict (joined d e) = is_conflict d || is_conflict e
is_conflict other_error = false

-- errors.Is(err, target) for an error of the ports.
unfoldable pub is_port_error : Error → PortError → Bool
is_port_error (sentinel s) t = false
is_port_error (wrapped e) t = is_port_error e t
is_port_error (field_violation r i e) t = is_port_error e t
is_port_error (validation_error vs e) t = is_port_error e t
is_port_error concurrency_conflict t = false
is_port_error (port_error p) t = port_error_index p == port_error_index t
is_port_error (client_error c) t = false
is_port_error (joined d e) t = is_port_error d t || is_port_error e t
is_port_error other_error t = false
