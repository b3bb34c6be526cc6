-- ===== src/Ordering/Postgres/Tables.antt =====
-- The tables of one transaction as lists of rows, with what contexts/ordering/db/queries.sql says of
-- them and the keys and checks of contexts/ordering/db/schema.sql. Other transactions are not in this
-- picture.
-- Foreign keys are left out.
use go_ddd_template.Base.{
  ℕ, ◌+◌, String, Bool, true, false, not, ◌&&◌, ◌||◌, Option, none, some, List, [], ◌∷◌, ◌++◌, leb,
  is_negative, is_negative_int32, ◌==◌, str_eq, keep_if, Result, ok, err, if◌then◌else◌,
}
use go_ddd_template.Shared.Postgres.{DbError, no_rows, unique_violation, other_failure}
use go_ddd_template.Ordering.Postgres.{
  OrderRow, OrderLineRow, UpdateOrderParams, ShipmentRow, UpdateShipmentParams, OrderQueries,
}

pub record Tables : Type 0 where
  pub orders : List OrderRow
  pub lines : List OrderLineRow
  pub shipments : List ShipmentRow

-- SELECT … WHERE id = $1: the column is the primary key.
unfoldable pub find_order : String → List OrderRow → Result DbError OrderRow
find_order id [] = err no_rows
find_order id (r ∷ rows) = if str_eq r.id id then ok r else find_order id rows

unfoldable pub find_shipment : String → List ShipmentRow → Result DbError ShipmentRow
find_shipment id [] = err no_rows
find_shipment id (r ∷ rows) = if str_eq r.id id then ok r else find_shipment id rows

abbrev has_row {ℓ} : {A : Type ℓ} → Result DbError A → Bool
has_row (ok r) = true
has_row (err e) = false

-- CHECK (version >= 1)
abbrev pub allowed_version : ℕ → Bool
allowed_version version = not (is_negative_int32 version || version == 0)

abbrev pub allowed_order_status : String → Bool
allowed_order_status s = str_eq s "confirmed" || str_eq s "cancelled"

unfoldable pub insert_order : OrderRow → Tables → Tables × Option DbError
insert_order row t =
    if allowed_order_status row.status
      && not (is_negative row.total_amount)
      && allowed_version row.version
    then if has_row (find_order row.id t.orders)
      then (t, some unique_violation)
      else (record t { orders = t.orders ++ row ∷ [] }, none)
    else (t, some other_failure)

abbrev pub has_line_key : OrderLineRow → List OrderLineRow → Bool
has_line_key row [] = false
has_line_key row (r ∷ rows) =
    (str_eq r.order_id row.order_id && r.line_no == row.line_no) || has_line_key row rows

-- CHECK (quantity >= 1), CHECK (unit_price >= 0)
abbrev pub allowed_line : OrderLineRow → Bool
allowed_line r =
    not (is_negative_int32 r.quantity || r.quantity == 0) && not (is_negative r.unit_price)

unfoldable pub insert_line : OrderLineRow → Tables → Tables × Option DbError
insert_line row t =
    if allowed_line row
    then if has_line_key row t.lines
      then (t, some unique_violation)
      else (record t { lines = t.lines ++ row ∷ [] }, none)
    else (t, some other_failure)

-- ORDER BY line_no ASC; no line number is negative.
unfoldable pub insert_by_number : OrderLineRow → List OrderLineRow → List OrderLineRow
insert_by_number row [] = row ∷ []
insert_by_number row (r ∷ rows) =
    if leb row.line_no r.line_no then row ∷ r ∷ rows else r ∷ insert_by_number row rows

unfoldable pub by_number : List OrderLineRow → List OrderLineRow
unfolding insert_by_number
by_number [] = []
by_number (r ∷ rows) = insert_by_number r (by_number rows)

unfoldable pub of_order : String → List OrderLineRow → List OrderLineRow
of_order id rows = keep_if (λ r. str_eq r.order_id id) rows

unfoldable pub update_order_rows : UpdateOrderParams → List OrderRow → List OrderRow × ℕ
update_order_rows p [] = ([], 0)
update_order_rows p (r ∷ rows) =
    let (rows', n) = update_order_rows p rows in
    if str_eq r.id p.id && r.version == p.expected
    then (record r { status = p.status; version = p.version } ∷ rows', n + 1)
    else (r ∷ rows', n)

unfoldable pub update_order : UpdateOrderParams → Tables → Tables × Result DbError ℕ
unfolding update_order_rows
update_order p t =
    let (rows, n) = update_order_rows p t.orders in
    if n == 0
    then (t, ok 0)
    else if allowed_order_status p.status && allowed_version p.version
    then (record t { orders = rows }, ok n)
    else (t, err other_failure)

abbrev pub allowed_shipment_status : String → Bool
allowed_shipment_status s = str_eq s "preparing" || str_eq s "shipped"

unfoldable pub insert_shipment : ShipmentRow → Tables → Tables × Option DbError
insert_shipment row t =
    if allowed_shipment_status row.status && allowed_version row.version
    then if has_row (find_shipment row.id t.shipments)
      then (t, some unique_violation)
      else (record t { shipments = t.shipments ++ row ∷ [] }, none)
    else (t, some other_failure)

unfoldable pub update_shipment_rows : UpdateShipmentParams → List ShipmentRow → List ShipmentRow × ℕ
update_shipment_rows p [] = ([], 0)
update_shipment_rows p (r ∷ rows) =
    let (rows', n) = update_shipment_rows p rows in
    if str_eq r.id p.id && r.version == p.expected
    then (
      record r { status = p.status; tracking_number = p.tracking_number; version = p.version }
          ∷ rows',
      n + 1,
    )
    else (r ∷ rows', n)

unfoldable pub update_shipment : UpdateShipmentParams → Tables → Tables × Result DbError ℕ
unfolding update_shipment_rows
update_shipment p t =
    let (rows, n) = update_shipment_rows p t.shipments in
    if n == 0
    then (t, ok 0)
    else if allowed_shipment_status p.status && allowed_version p.version
    then (record t { shipments = rows }, ok n)
    else (t, err other_failure)

abbrev pub tables : OrderQueries Tables
tables = record {
  get_order_by_id = λ id t. find_order id t.orders;
  list_order_lines = λ id t. ok (by_number (of_order id t.lines));
  insert_order = insert_order;
  insert_order_line = insert_line;
  update_order = update_order;
  get_shipment_by_id = λ id t. find_shipment id t.shipments;
  insert_shipment = insert_shipment;
  update_shipment = update_shipment;
}
