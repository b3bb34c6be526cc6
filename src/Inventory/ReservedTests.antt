-- ===== src/Inventory/ReservedTests.antt =====
-- Runs of the theorems on what a Reserve commits.
use go_ddd_template.Base.{[], ◌∷◌}
use go_ddd_template.Inventory.Application.Commands.{ReserveInput}

abbrev three_bolts : ReserveInput
three_bolts = record { ref = "order-1"; lines = record { sku = "BOLT"; quantity = 3 } ∷ [] }
