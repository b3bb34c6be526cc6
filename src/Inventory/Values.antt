-- ===== src/Inventory/Values.antt =====
-- Value objects: Quantity of domain/quantity.go, SKU of domain/stock_item.go and ReservationRef of
-- domain/reservation.go.
use go_ddd_template.Base.{
  String, Bool, GoInt, add_int, sub_int, less_int, is_negative, sign_bit, ◌<◌, ◌==◌, is_empty,
  trim_space, Result, ok, err, if◌then◌else◌,
}
use go_ddd_template.Inventory.Errors.{
  Error, sentinel, wrapped, violated, v_sku, v_quantity, v_reservation_ref, invalid_quantity,
}

pub record Quantity : Type 0 where
  pub value : GoInt

-- What NewQuantity lets through: a number that is not negative.
abbrev pub IsQuantity : Quantity → Type 0
IsQuantity q = q.value < sign_bit

abbrev pub zero_quantity : Quantity
zero_quantity = record { value = 0 }

unfoldable pub new_quantity : GoInt → Result Error Quantity
new_quantity n = if is_negative n then err (violated v_quantity) else ok (record { value = n })

unfoldable pub is_zero : Quantity → Bool
is_zero q = q.value == 0

unfoldable pub add : Quantity → Quantity → Quantity
add q other = record { value = add_int q.value other.value }

unfoldable pub greater_than : Quantity → Quantity → Bool
greater_than q other = less_int other.value q.value

unfoldable pub sub : Quantity → Quantity → Result Error Quantity
sub q other =
    if less_int q.value other.value
    then err (wrapped (sentinel invalid_quantity))
    else ok (record { value = sub_int q.value other.value })

pub record Sku : Type 0 where
  pub value : String

unfoldable pub new_sku : String → Result Error Sku
new_sku s =
    let trimmed = trim_space s in
    if is_empty trimmed then err (violated v_sku) else ok (record { value = trimmed })

pub record ReservationRef : Type 0 where
  pub value : String

unfoldable pub new_reservation_ref : String → Result Error ReservationRef
new_reservation_ref s =
    let trimmed = trim_space s in
    if is_empty trimmed then err (violated v_reservation_ref) else ok (record { value = trimmed })

abbrev pub ref_is_zero : ReservationRef → Bool
ref_is_zero r = is_empty r.value
