-- ===== src/Ordering/Http/Statuses.antt =====
-- Which status an error has: classify and NewError of
-- contexts/ordering/internal/adapter/inbound/httpapi/errmap.go.
use go_ddd_template.Base.{String, true, false, ◌<◌, ◌≡◌, ℕ, ap, inl, inr, arith}
use go_ddd_template.Shared.Problem.Response.{ProblemResponse}
use go_ddd_template.Ordering.Errors.{
  Error, Sentinel, is_sentinel, is_port_error, reservation_unavailable, empty_order,
  order_not_confirmed, order_not_found, invalid_order_id, invalid_customer_id, invalid_sku,
  invalid_quantity, invalid_money, invalid_reservation_ref, shipment_not_found,
  shipment_not_preparing, invalid_shipment_id, invalid_tracking_number,
}
use go_ddd_template.Ordering.Validation.{locate, locate_cases}
use go_ddd_template.Ordering.Http.{classify, new_error}

-- An error with one of the ordering domain's sentinels in its chain, and without
-- ErrReservationUnavailable, is never answered with a status of 500 or more.
pub classify_sentinel :
    (e : Error) (s : Sentinel)
    → is_port_error e reservation_unavailable ≡ false
    → is_sentinel e s ≡ true
    → (classify e).0 < 500
unfolding classify
classify_sentinel e empty_order u h = ground arith
classify_sentinel e order_not_confirmed u h = ground arith
classify_sentinel e order_not_found u h = ground arith
classify_sentinel e invalid_order_id u h = ground arith
classify_sentinel e invalid_customer_id u h = ground arith
classify_sentinel e invalid_sku u h = ground arith
classify_sentinel e invalid_quantity u h = ground arith
classify_sentinel e invalid_money u h = ground arith
classify_sentinel e invalid_reservation_ref u h = ground arith
classify_sentinel e shipment_not_found u h = ground arith
classify_sentinel e shipment_not_preparing u h = ground arith
classify_sentinel e invalid_shipment_id u h = ground arith
classify_sentinel e invalid_tracking_number u h = ground arith

-- The parts of an answer that do not name a field.
abbrev pub kind_of : ProblemResponse → ℕ × String × String × ℕ × String
kind_of a =
    (a.status_code, a.response.type_uri, a.response.title, a.response.status, a.response.detail)

-- Locating an error in the request changes neither the status of its answer nor its type, title and
-- detail.
pub new_error-locate :
    (at : String) (e : Error) → kind_of (new_error (locate at e)) ≡ kind_of (new_error e)
unfolding new_error
new_error-locate at e = elim (locate_cases at e) [
  | inl same ↦ ap (λ x. kind_of (new_error x)) same
  | inr (vs, located) ↦ ap (λ x. kind_of (new_error x)) located
]
