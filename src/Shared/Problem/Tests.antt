-- ===== src/Shared/Problem/Tests.antt =====
-- Runs of the theorems on the extraction of contract violations.
use go_ddd_template.Base.{none, ◌≡◌, refl, [], ◌∷◌, map}
use go_ddd_template.Shared.Problem.{join_path}
use go_ddd_template.Shared.Problem.Extract.{
  FieldFaults, field_required, min_length, wrapped, invalid_fields, no_fields, field, as_fields,
  Thrown, decoded_path, extract_params, code_of,
}
use go_ddd_template.Shared.Problem.Extract.Leaves.{leaves, param_of, extract_params-leaves}

abbrev missing : FieldFaults
missing =
    field "sku" field_required (
      field "unitPrice" (wrapped (invalid_fields (field "currency" min_length no_fields)))
        no_fields)

abbrev thrown : Thrown
thrown = record {
  text = "decode request: decode field \"lines\": invalid: sku (field required)";
  fields_text = "invalid: sku (field required)";
  fault = wrapped (invalid_fields missing);
}

extracted :
    extract_params thrown
    ≡ record { name = "lines.sku"; code = "required" }
      ∷ record { name = "lines.unitPrice.currency"; code = "min_length" }
      ∷ []
unfolding extract_params join_path code_of
extracted = refl

extract_params-leaves_example :
    extract_params thrown ≡ map (param_of (decoded_path thrown)) (leaves missing)
unfolding as_fields leaves
extract_params-leaves_example =
    extract_params-leaves thrown (none ∷ []) missing ("sku" ∷ [], "required")
      (("unitPrice" ∷ "currency" ∷ [], "min_length") ∷ []) refl refl
