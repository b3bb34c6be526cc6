-- ===== src/Ordering/Http/Located.antt =====
-- What the ordering context answers to a line that breaks a rule: httpapi/errmap.go and problem.go on
-- the errors of domain/errors.go that application/validation.go has located.
use Prim.Native.String.{char_at}
use go_ddd_template.Base.{
  ℕ, String, ◌≡◌, refl, ap, ◌∙◌, List, [], ◌∷◌, concat, Elem, All, All-Elem, decimal,
}
use go_ddd_template.Base.Dict.{lookup}
use go_ddd_template.Base.Split.{split_on}
use go_ddd_template.Shared.Problem
use go_ddd_template.Shared.Problem.{join_loop}
use go_ddd_template.Shared.Problem.Response.{ProblemResponse, problem_type_of, domain_reason_of}
use go_ddd_template.Shared.Problem.JsonPath.{to_json_path, json_loop}
use go_ddd_template.Shared.Problem.LinePath.{
  dto_line, json_line, to_json_path_line, join_one, join_two, is_empty-concat,
}
use go_ddd_template.Ordering.Errors.{
  Rule, violated, v_sku, v_quantity, v_money_amount, v_money_currency,
}
use go_ddd_template.Ordering.Validation.{locate, line_path, join_dto_path}
use go_ddd_template.Ordering.Http.{new_error, json_names, domain_reasons}

-- The rules that a line of an order can break, with the field of the request's JSON that each is about.
abbrev pub line_rules : List (Rule × String)
line_rules =
    (v_sku, "sku")
    ∷ (v_quantity, "quantity")
    ∷ (v_money_amount, "unitPrice.amount")
    ∷ (v_money_currency, "unitPrice.currency")
    ∷ []

-- The answer to a request whose line breaks the rule, with the path of the field.
abbrev pub answer : Rule → String → ProblemResponse
answer r path = record {
  status_code = 422;
  response = record {
    type_uri = problem_type_of "invalid-input";
    title = "Unprocessable Entity";
    status = 422;
    detail = Problem.detail_invalid_input;
    invalid_params =
        record { name = path; code = r.code; reason = domain_reason_of domain_reasons r.code } ∷ [];
  };
}

dto_path_line :
    (i : ℕ) (seg : String) → join_dto_path (line_path i) seg ≡ concat (dto_line i) (concat "." seg)
unfolding join_dto_path line_path
dto_path_line i seg = rw (is_empty-concat "Lines[" (concat (decimal i) "]"))

abbrev path_below : ℕ → String → String
path_below i dto = to_json_path json_names (join_dto_path (line_path i) dto)

path_below_segments :
    (i : ℕ) (dto : String) (names : List String)
    → json_loop json_names (split_on 46 dto) ≡ names
    → path_below i dto ≡ join_loop (json_line i) names
unfolding lookup
path_below_segments i dto names e =
    ap (to_json_path json_names) (dto_path_line i dto)
    ∙ to_json_path_line json_names i dto refl
    ∙ ap (join_loop (json_line i)) e

sku_path : (i : ℕ) → path_below i "Sku" ≡ concat (json_line i) (concat "." "sku")
unfolding json_loop split_on
sku_path i = path_below_segments i "Sku" ("sku" ∷ []) refl ∙ join_one i (char_at "sku" 0) "ku" refl

quantity_path : (i : ℕ) → path_below i "Quantity" ≡ concat (json_line i) (concat "." "quantity")
unfolding json_loop split_on
quantity_path i =
    path_below_segments i "Quantity" ("quantity" ∷ []) refl
    ∙ join_one i (char_at "quantity" 0) "uantity" refl

amount_path :
    (i : ℕ) → path_below i "UnitPrice.Amount" ≡ concat (json_line i) (concat "." "unitPrice.amount")
unfolding json_loop split_on
amount_path i =
    path_below_segments i "UnitPrice.Amount" ("unitPrice" ∷ "amount" ∷ []) refl
    ∙ join_two i (char_at "unitPrice" 0) "nitPrice" (char_at "amount" 0) "mount" refl refl

currency_path :
    (i : ℕ)
    → path_below i "UnitPrice.Currency" ≡ concat (json_line i) (concat "." "unitPrice.currency")
unfolding json_loop split_on
currency_path i =
    path_below_segments i "UnitPrice.Currency" ("unitPrice" ∷ "currency" ∷ []) refl
    ∙ join_two i (char_at "unitPrice" 0) "nitPrice" (char_at "currency" 0) "urrency" refl refl

-- What the theorem says of one rule.
abbrev Answered : ℕ → Rule × String → Type 0
Answered i (r, field) =
    new_error (locate (line_path i) (violated r))
    ≡ answer r (concat (json_line i) (concat "." field))

all-Answered : (i : ℕ) → All (Answered i) line_rules
unfolding new_error locate
all-Answered i = (
  ap (answer v_sku) (sku_path i),
  (
    ap (answer v_quantity) (quantity_path i),
    (
      ap (answer v_money_amount) (amount_path i),
      (ap (answer v_money_currency) (currency_path i), tt),
    ),
  ),
)

-- A violation of a rule on a line of an order, which the application has located at the line's
-- place, is answered with 422, the type invalid-input and one invalid parameter: the JSON path of
-- the field in that line, with the rule's code and reason.
pub new_error_line :
    (i : ℕ) (r : Rule) (field : String)
    → Elem (r, field) line_rules
    → new_error (locate (line_path i) (violated r))
      ≡ answer r (concat (json_line i) (concat "." field))
new_error_line i r field m = All-Elem (Answered i) (r, field) line_rules m (all-Answered i)
