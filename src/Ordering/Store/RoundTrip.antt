-- ===== src/Ordering/Store/RoundTrip.antt =====
-- What the rows keep of an order and of a shipment: written, then read back.
use go_ddd_template.Base.{
  ◌≡◌, refl, String, false, List, [], ◌∷◌, ◌++◌, All, arith, less_int, is_empty, trim_space, GoInt,
  ok, append-nil, append_assoc, ap, Bool, true, is_negative,
}
use go_ddd_template.Ordering.Values.{TrackingNumber, new_tracking_number}
use go_ddd_template.Ordering.Money.{Money}
use go_ddd_template.Ordering.Order.{
  OrderLine, new_order_line, OrderStatus, confirmed, cancelled, Order, reconstitute_order,
}
use go_ddd_template.Ordering.Shipment.{
  ShipmentStatus, preparing, shipped, Shipment, reconstitute_shipment, no_tracking_number,
}
use go_ddd_template.Ordering.Order as Orders
use go_ddd_template.Ordering.Shipment as Shipments
use go_ddd_template.Ordering.Store.{
  row_to_line, rows_to_lines, lines_to_rows, line_to_row, order_row_to_order, order_to_order_row,
  parse_order_status, parse_shipment_status, row_tracking_number, shipment_row_to_shipment,
  shipment_to_shipment_row,
}

-- What the constructors of the identifiers make: a trimmed text that is not empty.
abbrev pub IsName : String → Type 0
IsName s = (trim_space s ≡ s) × (is_empty s ≡ false)

-- What NewMoney makes.
abbrev pub IsMoney : Money → Type 0
IsMoney m = (is_negative m.amount ≡ false) × IsName m.currency

abbrev pub IsLine : OrderLine → Type 0
IsLine l = IsName l.sku.value × (less_int l.quantity.value 1 ≡ false) × IsMoney l.unit_price

abbrev pub is_known : OrderStatus → Bool
is_known confirmed = true
is_known cancelled = true
is_known (OrderStatus.other n) = false

pub record IsOrder (o : Order) : Type 0 where
  pub id_name : IsName o.id.value
  pub customer_name : IsName o.customer.value
  pub ref_name : IsName o.reservation_ref.value
  pub total_money : IsMoney o.total
  pub all_lines : All IsLine o.lines
  pub known : is_known o.status ≡ true

row_to_line-to_row : (l : OrderLine) → IsLine l → row_to_line (line_to_row l) ≡ ok l
unfolding row_to_line
row_to_line-to_row l h = ground (arith, h.0.0, h.0.1, h.1, h.2.0, h.2.1.0, h.2.1.1)

rows_to_lines-to_rows :
    (lines done : List OrderLine)
    → All IsLine lines
    → rows_to_lines (lines_to_rows lines) done ≡ ok (done ++ lines)
unfolding rows_to_lines lines_to_rows
rows_to_lines-to_rows [] done a = ground (arith, append-nil done)
rows_to_lines-to_rows (l ∷ lines) done a = ground (
  arith,
  row_to_line-to_row l a.0,
  rows_to_lines-to_rows lines (done ++ l ∷ []) a.1,
  append_assoc done (l ∷ []) lines,
)

parse_order_status-string :
    (st : OrderStatus) → is_known st ≡ true → parse_order_status (Orders.status_string st) ≡ ok st
unfolding parse_order_status Orders.status_string
parse_order_status-string confirmed h = refl
parse_order_status-string cancelled h = refl
parse_order_status-string (OrderStatus.other n) h = absurd cc

-- An order whose identifiers, prices and quantities are such as their constructors make, and whose
-- status is confirmed or cancelled, written to a row and read back, is itself with the version of
-- the row and without its events.
pub order_row_to_order-to_order_row :
    (o : Order) (version : GoInt)
    → IsOrder o
    → order_row_to_order (order_to_order_row o version)
      ≡ ok (record o { version = version; events = [] })
unfolding order_row_to_order order_to_order_row
order_row_to_order-to_order_row o version h = ground (
  arith,
  h.id_name,
  h.customer_name,
  h.ref_name,
  h.total_money,
  parse_order_status-string o.status h.known,
  rows_to_lines-to_rows o.lines [] h.all_lines,
)

-- The tracking number is there exactly where the shipment is shipped, as NewTrackingNumber makes it.
abbrev pub IsTracked : ShipmentStatus → String → Type 0
IsTracked preparing tn = tn ≡ ""
IsTracked shipped tn = IsName tn
IsTracked (ShipmentStatus.other n) tn = ⊥

parse_shipment_status-string :
    (st : ShipmentStatus) (tn : String)
    → IsTracked st tn
    → parse_shipment_status (Shipments.status_string st) ≡ ok st
unfolding parse_shipment_status Shipments.status_string
parse_shipment_status-string preparing tn h = refl
parse_shipment_status-string shipped tn h = refl
parse_shipment_status-string (ShipmentStatus.other n) tn h = elim h [ ]

tracked_value : (tn : TrackingNumber) → IsName tn.value → row_tracking_number tn.value ≡ ok tn
unfolding row_tracking_number new_tracking_number
tracked_value tn h = ground (arith, h.0, h.1)

row_tracking_number-value :
    (st : ShipmentStatus) (tn : TrackingNumber)
    → IsTracked st tn.value
    → row_tracking_number tn.value ≡ ok tn
unfolding row_tracking_number new_tracking_number
row_tracking_number-value preparing tn h = ground (arith, h, ap is_empty h)
row_tracking_number-value shipped tn h = tracked_value tn h
row_tracking_number-value (ShipmentStatus.other n) tn h = elim h [ ]

-- A shipment whose identifiers are such as their constructors make, and that has a tracking number
-- exactly where it is shipped, written to a row and read back, is itself with the version of the
-- row and without its events.
pub shipment_row_to_shipment-to_shipment_row :
    (s : Shipment) (version : GoInt)
    → IsName s.id.value
    → IsName s.order_id.value
    → IsTracked s.status s.tracking_number.value
    → shipment_row_to_shipment (shipment_to_shipment_row s version)
      ≡ ok (record s { version = version; events = [] })
unfolding shipment_row_to_shipment shipment_to_shipment_row
shipment_row_to_shipment-to_shipment_row s version n n' t = ground (
  arith,
  n,
  n',
  parse_shipment_status-string s.status s.tracking_number.value t,
  row_tracking_number-value s.status s.tracking_number t,
)
