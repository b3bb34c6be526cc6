-- ===== src/Shared/Problem/Response.antt =====
-- Problem details as the HTTP adapters write them. The three adapters hold the same code, each for
-- the types that are generated for it: contexts/ordering/internal/adapter/inbound/httpapi/problem.go,
-- and the problem.go of the inventory's httpapi and internalhttp. What differs is a parameter.
-- `marshal` is the generated json.Marshal, and logging is left out.
use go_ddd_template.Base.{
  ℕ, String, ◌==◌, leb, Option, none, some, List, [], ◌∷◌, str_eq, concat, if◌then◌else◌,
}
use go_ddd_template.Base.Dict.{Dict, lookup}
use go_ddd_template.Shared.Problem

pub record InvalidParam : Type 0 where
  pub name : String
  pub code : String
  pub reason : String

pub record ProblemDetails : Type 0 where
  pub type_uri : String
  pub title : String
  pub status : ℕ
  pub detail : String
  pub invalid_params : List InvalidParam

-- The generated ProblemResponseStatusCode.
pub record ProblemResponse : Type 0 where
  pub status_code : ℕ
  pub response : ProblemDetails

-- What a handler writes: the status, the two headers that it sets, and the body.
pub record HttpResponse : Type 0 where
  pub status : ℕ
  pub allow : Option String
  pub content_type : Option String
  pub body : Option String

abbrev pub problem_type_base : String
problem_type_base = "https://github.com/example/go-ddd-template/problems/"

-- url.Parse of the base and a suffix, which has no special character, gives that address.
abbrev pub problem_type_of : String → String
problem_type_of suffix = concat problem_type_base suffix

-- net/http.StatusText, for the statuses that ogenerrors.ErrorCode gives and that the adapters write.
abbrev pub status_text : ℕ → String
status_text status =
    if status == 400
    then "Bad Request"
    else if status == 401
    then "Unauthorized"
    else if status == 404
    then "Not Found"
    else if status == 405
    then "Method Not Allowed"
    else if status == 413
    then "Request Entity Too Large"
    else if status == 415
    then "Unsupported Media Type"
    else if status == 500
    then "Internal Server Error"
    else if status == 501
    then "Not Implemented"
    else ""

unfoldable pub new_problem : ℕ → String → String → List InvalidParam → ProblemDetails
unfolding Problem.title_of
new_problem status type_suffix detail params = record {
  type_uri = problem_type_of type_suffix;
  title = Problem.title_of type_suffix (status_text status);
  status = status;
  detail = detail;
  invalid_params = params;
}

-- The loop of contractParams.
unfoldable pub contract_params : List Problem.Param → List InvalidParam
unfolding Problem.reason_of
contract_params [] = []
contract_params (p ∷ params) =
    record { name = p.name; code = p.code; reason = Problem.reason_of p.code }
    ∷ contract_params params

unfoldable pub domain_reason_of : Dict String → String → String
unfolding lookup
domain_reason_of domain_reasons code = elim (lookup code domain_reasons) [
  | none ↦ "値が不正です"
  | some r ↦ r
]

module _ (marshal : ProblemDetails → Option String) where
  unfoldable pub write_problem : Option String → ℕ → ProblemDetails → HttpResponse
  write_problem allow status pd = elim (marshal pd) [
    | none ↦ record { status = 500; allow = allow; content_type = none; body = none }
    | some text ↦ record {
      status = status;
      allow = allow;
      content_type = some "application/problem+json";
      body = some text;
    }
  ]

  -- The type and the detail by the status of ogen's error.
  abbrev pub contract_type : ℕ → String × String
  contract_type status =
      if status == 415
      then (Problem.type_unsupported_media_type, Problem.detail_unsupported_media)
      else if leb 500 status
      then (Problem.type_internal_error, Problem.detail_internal_error)
      else (Problem.type_validation_error, Problem.detail_validation_error)

  -- `status` is what ogenerrors.ErrorCode gives for the error, and `params` what ExtractParams does.
  unfoldable pub error_handler : ℕ → List Problem.Param → HttpResponse
  unfolding new_problem contract_params write_problem
  error_handler status params =
      let (suffix, detail) = contract_type status in
      write_problem none status (new_problem status suffix detail (contract_params params))

  unfoldable pub not_found_handler : HttpResponse
  unfolding new_problem write_problem
  not_found_handler =
      write_problem none 404 (new_problem 404 Problem.type_not_found Problem.detail_not_found [])

  unfoldable pub method_not_allowed_handler : String → String → HttpResponse
  unfolding new_problem write_problem
  method_not_allowed_handler method allowed =
      if str_eq method "OPTIONS"
      then record { status = 204; allow = none; content_type = none; body = none }
      else write_problem (some allowed) 405
          (new_problem 405 Problem.type_method_not_allowed Problem.detail_method_not_allowed [])
