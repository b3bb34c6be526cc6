-- ===== src/Ordering/HttpTests.antt =====
-- Runs of the theorems on the ordering context's HTTP answers.
use go_ddd_template.Base.{◌≡◌, refl, inr, inl, decimal}
use go_ddd_template.Ordering.Errors.{violated, v_quantity}
use go_ddd_template.Ordering.Validation.{locate, line_path}
use go_ddd_template.Ordering.Http.{new_error}
use go_ddd_template.Ordering.Http.Located.{answer, new_error_line}

new_error_line_example :
    new_error (locate (line_path 3) (violated v_quantity)) ≡ answer v_quantity "lines[3].quantity"
unfolding decimal
new_error_line_example = new_error_line 3 v_quantity "quantity" (inr (inl refl))
