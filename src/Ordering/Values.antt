-- ===== src/Ordering/Values.antt =====
-- Value objects of the ordering context: SKU and Quantity of domain/order_line.go, the identifiers
-- of domain/order.go and of domain/shipment.go.
use go_ddd_template.Base.{
  String, GoInt, less_int, is_empty, trim_space, Result, ok, err, if◌then◌else◌,
}
use go_ddd_template.Ordering.Errors.{
  Error, violated, v_sku, v_quantity, v_order_id, v_customer_id, v_reservation_ref, v_shipment_id,
  v_tracking_number,
}

pub record Quantity : Type 0 where
  pub value : GoInt

unfoldable pub new_quantity : GoInt → Result Error Quantity
new_quantity n = if less_int n 1 then err (violated v_quantity) else ok (record { value = n })

pub record Sku : Type 0 where
  pub value : String

unfoldable pub new_sku : String → Result Error Sku
new_sku s =
    let trimmed = trim_space s in
    if is_empty trimmed then err (violated v_sku) else ok (record { value = trimmed })

pub record OrderId : Type 0 where
  pub value : String

unfoldable pub new_order_id : String → Result Error OrderId
new_order_id s =
    let trimmed = trim_space s in
    if is_empty trimmed then err (violated v_order_id) else ok (record { value = trimmed })

pub record CustomerId : Type 0 where
  pub value : String

unfoldable pub new_customer_id : String → Result Error CustomerId
new_customer_id s =
    let trimmed = trim_space s in
    if is_empty trimmed then err (violated v_customer_id) else ok (record { value = trimmed })

pub record ReservationRef : Type 0 where
  pub value : String

unfoldable pub new_reservation_ref : String → Result Error ReservationRef
new_reservation_ref s =
    let trimmed = trim_space s in
    if is_empty trimmed then err (violated v_reservation_ref) else ok (record { value = trimmed })

unfoldable pub derive_reservation_ref : OrderId → ReservationRef
derive_reservation_ref id = record { value = id.value }

pub record ShipmentId : Type 0 where
  pub value : String

unfoldable pub new_shipment_id : String → Result Error ShipmentId
new_shipment_id s =
    let trimmed = trim_space s in
    if is_empty trimmed then err (violated v_shipment_id) else ok (record { value = trimmed })

pub record TrackingNumber : Type 0 where
  pub value : String

unfoldable pub new_tracking_number : String → Result Error TrackingNumber
new_tracking_number s =
    let trimmed = trim_space s in
    if is_empty trimmed then err (violated v_tracking_number) else ok (record { value = trimmed })
