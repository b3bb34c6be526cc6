-- ===== src/Inventory/Http.antt =====
-- The inventory's public HTTP adapter: errmap.go, handler.go and problem.go of
-- contexts/inventory/internal/adapter/inbound/httpapi. The generated server calls the handlers, and
-- new_error on an error of theirs.
use go_ddd_template.Base.{
  ℕ, String, ◌||◌, ◌==◌, none, some, List, [], ◌∷◌, GoInt, Result, ok, ◌>>=◌, str_eq, if◌then◌else◌,
}
use go_ddd_template.Base.Dict.{Dict}
use go_ddd_template.Shared.Problem
use go_ddd_template.Shared.Problem.Response.{
  InvalidParam, ProblemResponse, problem_type_of, domain_reason_of,
}
use go_ddd_template.Shared.Problem.JsonPath.{to_json_path}
use go_ddd_template.Inventory.Errors.{
  Error, PathViolation, is_sentinel, is_conflict, stock_item_not_found, invalid_sku,
  invalid_quantity, v_sku, v_quantity, v_reservation_ref,
}
use go_ddd_template.Inventory.Validation.{as_validation}
use go_ddd_template.Inventory.Ports.{StockStore}
use go_ddd_template.Inventory.Application.{Attempt, Deps}
use go_ddd_template.Inventory.Application.Stock.{StockResult, replenish_use_case, query_stock}

abbrev pub domain_reasons : Dict String
domain_reasons =
    (v_sku.code, "SKU を指定してください")
    ∷ (v_quantity.code, "0 以上の値を指定してください（補充・予約は 1 以上）")
    ∷ (v_reservation_ref.code, "予約参照を指定してください")
    ∷ []

abbrev pub json_names : Dict String
json_names = []

-- The loop of domainParams.
unfoldable pub violation_params : List PathViolation → List InvalidParam
unfolding to_json_path domain_reason_of
violation_params [] = []
violation_params (v ∷ violations) =
    record {
      name = to_json_path json_names v.path;
      code = v.code;
      reason = domain_reason_of domain_reasons v.code;
    }
    ∷ violation_params violations

unfoldable pub domain_params : Error → List InvalidParam
unfolding as_validation violation_params
domain_params e = elim (as_validation e) [
  | none ↦ []
  | some violations ↦ violation_params violations
]

unfoldable pub classify : Error → ℕ × String
unfolding is_sentinel is_conflict
classify e =
    if is_sentinel e stock_item_not_found
    then (404, "Not Found")
    else if is_sentinel e invalid_sku || is_sentinel e invalid_quantity
    then (422, "Unprocessable Entity")
    else if is_conflict e
    then (409, "Conflict")
    else (500, "Internal Server Error")

unfoldable pub problem_type_suffix : ℕ → String
problem_type_suffix status =
    if status == 404
    then Problem.type_resource_not_found
    else if status == 409
    then Problem.type_conflict
    else if status == 422
    then Problem.type_invalid_input
    else Problem.type_internal_error

unfoldable pub detail_of : String → String
detail_of suffix =
    if str_eq suffix Problem.type_resource_not_found
    then Problem.detail_resource_not_found
    else if str_eq suffix Problem.type_conflict
    then Problem.detail_conflict
    else if str_eq suffix Problem.type_invalid_input
    then Problem.detail_invalid_input
    else Problem.detail_internal_error

unfoldable pub new_error : Error → ProblemResponse
unfolding classify problem_type_suffix detail_of domain_params Problem.title_of
new_error e =
    let (status, text) = classify e in
    let suffix = problem_type_suffix status in
    record {
      status_code = status;
      response = record {
        type_uri = problem_type_of suffix;
        title = Problem.title_of suffix text;
        status = status;
        detail = detail_of suffix;
        invalid_params = domain_params e;
      };
    }

-- The generated StockView.
pub record StockView : Type 0 where
  pub sku : String
  pub available : GoInt
  pub reserved : GoInt
  pub version : GoInt

unfoldable pub to_stock_view : StockResult → StockView
to_stock_view r = record {
  sku = r.sku;
  available = r.available;
  reserved = r.reserved;
  version = r.version;
}

-- `sku` is the parameter of the path, and `quantity` what the body holds.
unfoldable pub replenish_stock :
    {T S : Type 0} → Deps T S → (ℕ → Attempt) → String → GoInt → S → S × Result Error StockView
unfolding replenish_use_case to_stock_view
replenish_stock deps attempts sku quantity s =
    let (s', out) =
      replenish_use_case deps attempts (record { sku = sku; quantity = quantity }) s in
    (s', out >>= λ r. ok (to_stock_view r))

unfoldable pub get_stock : {S : Type 0} → StockStore S → String → S → S × Result Error StockView
unfolding query_stock to_stock_view
get_stock read sku s =
    let (s', out) = query_stock read sku s in (s', out >>= λ r. ok (to_stock_view r))
