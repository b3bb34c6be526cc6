-- ===== src/Ordering/Store.antt =====
-- The rows of the ordering context: adapter/outbound/memory/order_rows.go and shipment_rows.go.
pub mod RoundTrip
pub mod Unit
use go_ddd_template.Base.{
  String, Bool, true, false, List, [], ◌∷◌, ◌++◌, GoInt, str_eq, is_empty, Result, ok, err, ◌>>=◌,
  map_err, if◌then◌else◌,
}
use go_ddd_template.Ordering.Errors.{Error, wrapped, other_error}
use go_ddd_template.Ordering.Values.{
  TrackingNumber, new_order_id, new_customer_id, new_reservation_ref, new_sku, new_quantity,
  new_shipment_id, new_tracking_number,
}
use go_ddd_template.Ordering.Money.{new_money}
use go_ddd_template.Ordering.Order.{
  OrderLine, new_order_line, OrderStatus, confirmed, cancelled, Order, reconstitute_order,
}
use go_ddd_template.Ordering.Order as Orders
use go_ddd_template.Ordering.Shipment.{
  ShipmentStatus, preparing, shipped, Shipment, reconstitute_shipment, no_tracking_number,
}
use go_ddd_template.Ordering.Shipment as Shipments

pub record LineRow : Type 0 where
  pub sku : String
  pub quantity : GoInt
  pub unit_price : GoInt
  pub currency : String

pub record OrderRow : Type 0 where
  pub id : String
  pub customer_id : String
  pub status : String
  pub total_amount : GoInt
  pub total_currency : String
  pub reservation_ref : String
  pub version : GoInt
  pub lines : List LineRow

unfoldable pub parse_order_status : String → Result Error OrderStatus
parse_order_status s =
    if str_eq s "confirmed"
    then ok confirmed
    else if str_eq s "cancelled"
    then ok cancelled
    else err other_error

-- One round of the loop of orderRowToOrder.
unfoldable pub row_to_line : LineRow → Result Error OrderLine
unfolding new_sku new_quantity new_money new_order_line
row_to_line lr = do
  sku ← map_err wrapped (new_sku lr.sku)
  qty ← map_err wrapped (new_quantity lr.quantity)
  price ← map_err wrapped (new_money lr.unit_price lr.currency)
  ok (new_order_line sku qty price)

unfoldable pub rows_to_lines : List LineRow → List OrderLine → Result Error (List OrderLine)
rows_to_lines [] lines = ok lines
rows_to_lines (lr ∷ rows) lines = do l ← row_to_line lr; rows_to_lines rows (lines ++ l ∷ [])

unfoldable pub order_row_to_order : OrderRow → Result Error Order
unfolding new_order_id new_customer_id parse_order_status new_money new_reservation_ref
    reconstitute_order
order_row_to_order r = do
  order_id ← map_err wrapped (new_order_id r.id)
  customer ← map_err wrapped (new_customer_id r.customer_id)
  status ← parse_order_status r.status
  total ← map_err wrapped (new_money r.total_amount r.total_currency)
  ref ← map_err wrapped (new_reservation_ref r.reservation_ref)
  lines ← rows_to_lines r.lines []
  ok (reconstitute_order order_id customer lines status total ref r.version)

abbrev pub line_to_row : OrderLine → LineRow
line_to_row l = record {
  sku = l.sku.value;
  quantity = l.quantity.value;
  unit_price = l.unit_price.amount;
  currency = l.unit_price.currency;
}

unfoldable pub lines_to_rows : List OrderLine → List LineRow
lines_to_rows [] = []
lines_to_rows (l ∷ lines) = line_to_row l ∷ lines_to_rows lines

unfoldable pub order_to_order_row : Order → GoInt → OrderRow
unfolding Orders.status_string
order_to_order_row o version = record {
  id = o.id.value;
  customer_id = o.customer.value;
  status = Orders.status_string o.status;
  total_amount = o.total.amount;
  total_currency = o.total.currency;
  reservation_ref = o.reservation_ref.value;
  version = version;
  lines = lines_to_rows o.lines;
}

pub record ShipmentRow : Type 0 where
  pub id : String
  pub order_id : String
  pub status : String
  pub tracking_number : String
  pub version : GoInt

unfoldable pub parse_shipment_status : String → Result Error ShipmentStatus
parse_shipment_status s =
    if str_eq s "preparing"
    then ok preparing
    else if str_eq s "shipped"
    then ok shipped
    else err other_error

-- The tracking number of a row: the zero value for an empty text.
unfoldable pub row_tracking_number : String → Result Error TrackingNumber
unfolding new_tracking_number
row_tracking_number s =
    if is_empty s then ok no_tracking_number else map_err wrapped (new_tracking_number s)

unfoldable pub shipment_row_to_shipment : ShipmentRow → Result Error Shipment
unfolding new_shipment_id new_order_id parse_shipment_status row_tracking_number
    reconstitute_shipment
shipment_row_to_shipment r = do
  shipment_id ← map_err wrapped (new_shipment_id r.id)
  order_id ← map_err wrapped (new_order_id r.order_id)
  status ← parse_shipment_status r.status
  tn ← row_tracking_number r.tracking_number
  ok (reconstitute_shipment shipment_id order_id status tn r.version)

unfoldable pub shipment_to_shipment_row : Shipment → GoInt → ShipmentRow
unfolding Shipments.status_string
shipment_to_shipment_row s version = record {
  id = s.id.value;
  order_id = s.order_id.value;
  status = Shipments.status_string s.status;
  tracking_number = s.tracking_number.value;
  version = version;
}
