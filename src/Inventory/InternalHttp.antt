-- ===== src/Inventory/InternalHttp.antt =====
-- The inventory's HTTP adapter for the other contexts: errmap.go, handler.go and problem.go of
-- contexts/inventory/internal/adapter/inbound/internalhttp. It has the shape of the public adapter and
-- shares nothing with it, as in the source; it knows more errors.
use go_ddd_template.Base.{
  ℕ, String, ◌||◌, ◌==◌, Option, none, some, List, [], ◌∷◌, map, GoInt, Time, zero_time, Duration,
  Result, ok, err, ◌>>=◌, str_eq, if◌then◌else◌,
}
use go_ddd_template.Base.Dict.{Dict}
use go_ddd_template.Shared.Outbox.{Message, Payload, Router, deliver}
use go_ddd_template.Shared.Problem
use go_ddd_template.Shared.Problem.Response.{
  InvalidParam, ProblemResponse, problem_type_of, domain_reason_of,
}
use go_ddd_template.Shared.Problem.JsonPath.{to_json_path}
use go_ddd_template.Inventory.Errors.{
  Error, PathViolation, is_sentinel, is_conflict, is_no_route, no_route, wrapped,
  stock_item_not_found, reservation_not_found, insufficient_stock, invalid_sku, invalid_quantity,
  invalid_reservation_ref, v_sku, v_quantity, v_reservation_ref,
}
use go_ddd_template.Inventory.Validation.{as_validation}
use go_ddd_template.Inventory.Application.{Attempt, Deps, Done}
use go_ddd_template.Inventory.Application.Commands.{ReserveLine}
use go_ddd_template.Inventory.Application.UseCases.{
  reserve_use_case, confirm_use_case, release_use_case,
}

abbrev pub domain_reasons : Dict String
domain_reasons =
    (v_sku.code, "SKU を指定してください")
    ∷ (v_quantity.code, "0 以上の値を指定してください（補充・予約は 1 以上）")
    ∷ (v_reservation_ref.code, "予約参照を指定してください")
    ∷ []

abbrev pub json_names : Dict String
json_names = []

-- The loop of domainParams.
unfoldable pub violation_params : List PathViolation → List InvalidParam
unfolding to_json_path domain_reason_of
violation_params [] = []
violation_params (v ∷ violations) =
    record {
      name = to_json_path json_names v.path;
      code = v.code;
      reason = domain_reason_of domain_reasons v.code;
    }
    ∷ violation_params violations

unfoldable pub domain_params : Error → List InvalidParam
unfolding as_validation violation_params
domain_params e = elim (as_validation e) [
  | none ↦ []
  | some violations ↦ violation_params violations
]

unfoldable pub classify : Error → ℕ × String
unfolding is_sentinel is_conflict is_no_route
classify e =
    if is_sentinel e stock_item_not_found || is_sentinel e reservation_not_found
    then (404, "Not Found")
    else if is_sentinel e insufficient_stock || is_conflict e
    then (409, "Conflict")
    else if is_sentinel e invalid_sku
        || is_sentinel e invalid_quantity
        || is_sentinel e invalid_reservation_ref
        || is_no_route e
    then (422, "Unprocessable Entity")
    else (500, "Internal Server Error")

unfoldable pub problem_type_suffix : ℕ → String
problem_type_suffix status =
    if status == 404
    then Problem.type_resource_not_found
    else if status == 409
    then Problem.type_conflict
    else if status == 422
    then Problem.type_invalid_input
    else Problem.type_internal_error

unfoldable pub detail_of : String → String
detail_of suffix =
    if str_eq suffix Problem.type_resource_not_found
    then Problem.detail_resource_not_found
    else if str_eq suffix Problem.type_conflict
    then Problem.detail_conflict
    else if str_eq suffix Problem.type_invalid_input
    then Problem.detail_invalid_input
    else Problem.detail_internal_error

unfoldable pub new_error : Error → ProblemResponse
unfolding classify problem_type_suffix detail_of domain_params Problem.title_of
new_error e =
    let (status, text) = classify e in
    let suffix = problem_type_suffix status in
    record {
      status_code = status;
      response = record {
        type_uri = problem_type_of suffix;
        title = Problem.title_of suffix text;
        status = status;
        detail = detail_of suffix;
        invalid_params = domain_params e;
      };
    }

-- The generated Ack.
pub record Ack : Type 0 where
  pub status : String

-- The generated lines and body of a ReserveCommand.
pub record CommandLine : Type 0 where
  pub sku : String
  pub quantity : GoInt

pub record ReserveCommand : Type 0 where
  pub ref : String
  pub lines : List CommandLine

-- The generated InboundMessage; the payload is the text of the message's bytes.
pub record InboundMessage : Type 0 where
  pub id : String
  pub type_name : String
  pub payload : Payload
  pub trace_id : Option String
  pub occurred_at : Option Time

abbrev acked : {S : Type 0} → String → S × Result Error Done → S × Result Error Ack
acked status (s, out) = (s, out >>= λ r. ok (record { status = status }))

unfoldable pub to_reserve_lines : List CommandLine → List ReserveLine
to_reserve_lines lines = map (λ l. record { sku = l.sku; quantity = l.quantity }) lines

module _ {T S : Type 0} (deps : Deps T S) (attempts : ℕ → Attempt) where
  unfoldable pub reserve_stock : Duration → ReserveCommand → S → S × Result Error Ack
  unfolding reserve_use_case to_reserve_lines
  reserve_stock ttl req s = acked "reserved" (
      reserve_use_case deps ttl attempts
        (record { ref = req.ref; lines = to_reserve_lines req.lines }) s)

  unfoldable pub confirm_reservation : String → S → S × Result Error Ack
  unfolding confirm_use_case
  confirm_reservation ref s = acked "confirmed" (confirm_use_case deps attempts ref s)

  unfoldable pub release_reservation : String → S → S × Result Error Ack
  unfolding release_use_case
  release_reservation ref s = acked "released" (release_use_case deps attempts ref s)

-- An option of the request, or the zero value of the message's field.
abbrev pub value_or {ℓ} : {A : Type ℓ} → A → Option A → A
value_or d none = d
value_or d (some a) = a

unfoldable pub to_message : InboundMessage → Message
to_message req = record {
  id = req.id;
  type_name = req.type_name;
  payload = req.payload;
  trace_id = value_or "" req.trace_id;
  occurred_at = value_or zero_time req.occurred_at;
}

-- The end of IngestEvent.
abbrev pub ingested : {S : Type 0} → S × Option Error → S × Result Error Ack
ingested (s, some e) = (s, err e)
ingested (s, none) = (s, ok (record { status = "delivered" }))

unfoldable pub ingest_event :
    {S : Type 0} → Router Error S → InboundMessage → S → S × Result Error Ack
unfolding to_message deliver
ingest_event router req s = ingested (deliver (wrapped no_route) router (to_message req) s)
