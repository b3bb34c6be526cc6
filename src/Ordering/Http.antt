-- ===== src/Ordering/Http.antt =====
-- The ordering context's HTTP adapter: errmap.go, handler.go and problem.go of
-- contexts/ordering/internal/adapter/inbound/httpapi. The generated server calls the handlers, and
-- new_error on an error of theirs.
pub mod Handlers
pub mod Located
pub mod Statuses
use go_ddd_template.Base.{
  ℕ, String, Bool, ◌||◌, ◌==◌, none, some, List, [], ◌∷◌, str_eq, if◌then◌else◌,
}
use go_ddd_template.Base.Dict.{Dict}
use go_ddd_template.Shared.Problem
use go_ddd_template.Shared.Problem.Response.{
  InvalidParam, ProblemResponse, problem_type_of, domain_reason_of,
}
use go_ddd_template.Shared.Problem.JsonPath.{to_json_path}
use go_ddd_template.Ordering.Errors
use go_ddd_template.Ordering.Errors.{
  Error, PathViolation, is_sentinel, is_conflict, is_port_error, empty_order, order_not_confirmed,
  order_not_found, invalid_order_id, invalid_customer_id, invalid_sku, invalid_quantity,
  invalid_money, invalid_reservation_ref, shipment_not_found, shipment_not_preparing,
  invalid_shipment_id, invalid_tracking_number, reservation_rejected, reservation_unavailable,
  order_not_confirmed_for_shipment,
}
use go_ddd_template.Ordering.Validation.{as_validation}

abbrev pub domain_reasons : Dict String
domain_reasons =
    (Errors.v_empty_order.code, "1 行以上の明細を指定してください")
    ∷ (Errors.v_sku.code, "SKU を指定してください")
    ∷ (Errors.v_quantity.code, "1 以上の値を指定してください")
    ∷ (Errors.v_money_amount.code, "0 以上の値を指定してください")
    ∷ (Errors.v_money_currency.code, "通貨コードを指定してください")
    ∷ (Errors.v_customer_id.code, "顧客 ID を指定してください")
    ∷ (Errors.v_order_id.code, "注文 ID を指定してください")
    ∷ (Errors.v_reservation_ref.code, "予約参照を指定してください")
    ∷ (Errors.v_shipment_id.code, "出荷 ID を指定してください")
    ∷ (Errors.v_tracking_number.code, "追跡番号を指定してください")
    ∷ []

abbrev pub json_names : Dict String
json_names = ("OrderId", "id") ∷ ("ShipmentId", "id") ∷ []

-- The loop of domainParams.
unfoldable pub violation_params : List PathViolation → List InvalidParam
unfolding to_json_path domain_reason_of
violation_params [] = []
violation_params (v ∷ violations) =
    record {
      name = to_json_path json_names v.path;
      code = v.code;
      reason = domain_reason_of domain_reasons v.code;
    }
    ∷ violation_params violations

unfoldable pub domain_params : Error → List InvalidParam
unfolding as_validation violation_params
domain_params e = elim (as_validation e) [
  | none ↦ []
  | some violations ↦ violation_params violations
]

-- The sentinels of the domain that classify answers with 422.
abbrev pub is_invalid : Error → Bool
is_invalid e =
    is_sentinel e empty_order
    || is_sentinel e invalid_sku
    || is_sentinel e invalid_quantity
    || is_sentinel e invalid_money
    || is_sentinel e invalid_customer_id
    || is_sentinel e invalid_order_id
    || is_sentinel e invalid_reservation_ref
    || is_sentinel e invalid_shipment_id
    || is_sentinel e invalid_tracking_number

unfoldable pub classify : Error → ℕ × String
unfolding is_sentinel is_conflict is_port_error
classify e =
    if is_port_error e reservation_unavailable
    then (503, "Service Unavailable")
    else if is_port_error e reservation_rejected
    then (409, "Conflict")
    else if is_sentinel e order_not_found || is_sentinel e shipment_not_found
    then (404, "Not Found")
    else if is_sentinel e order_not_confirmed
        || is_sentinel e shipment_not_preparing
        || is_port_error e order_not_confirmed_for_shipment
        || is_conflict e
    then (409, "Conflict")
    else if is_invalid e
    then (422, "Unprocessable Entity")
    else (500, "Internal Server Error")

unfoldable pub problem_type_suffix : Error → ℕ → String
unfolding is_port_error
problem_type_suffix e status =
    if status == 404
    then Problem.type_resource_not_found
    else if status == 409
    then if is_port_error e reservation_rejected
      then Problem.type_reservation_rejected
      else if is_port_error e order_not_confirmed_for_shipment
      then Problem.type_order_not_confirmed_for_shipment
      else Problem.type_conflict
    else if status == 422
    then Problem.type_invalid_input
    else if status == 503
    then Problem.type_service_unavailable
    else Problem.type_internal_error

unfoldable pub detail_of : String → String
detail_of suffix =
    if str_eq suffix Problem.type_resource_not_found
    then Problem.detail_resource_not_found
    else if str_eq suffix Problem.type_conflict || str_eq suffix Problem.type_reservation_rejected
    then Problem.detail_conflict
    else if str_eq suffix Problem.type_order_not_confirmed_for_shipment
    then Problem.detail_order_not_confirmed_for_shipment
    else if str_eq suffix Problem.type_invalid_input
    then Problem.detail_invalid_input
    else Problem.detail_internal_error

unfoldable pub new_error : Error → ProblemResponse
unfolding classify problem_type_suffix detail_of domain_params Problem.title_of
new_error e =
    let (status, text) = classify e in
    let suffix = problem_type_suffix e status in
    record {
      status_code = status;
      response = record {
        type_uri = problem_type_of suffix;
        title = Problem.title_of suffix text;
        status = status;
        detail = detail_of suffix;
        invalid_params = domain_params e;
      };
    }
