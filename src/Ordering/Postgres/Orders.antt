-- ===== src/Ordering/Postgres/Orders.antt =====
-- The store of orders: order_store.go of contexts/ordering/internal/adapter/outbound/postgres. An order
-- that Save goes through has its new version on leaving it.
use go_ddd_template.Base.{
  ℕ, suc, String, Option, none, some, List, [], ◌∷◌, ◌++◌, add_int, to_int32, of_int32, ◌==◌,
  str_eq, Result, ok, err, ◌>>=◌, map_err, if◌then◌else◌,
}
use go_ddd_template.Shared.Postgres.{DbError, no_rows, unique_violation}
use go_ddd_template.Ordering.Errors.{
  Error, sentinel, wrapped, concurrency_conflict, other_error, order_not_found,
}
use go_ddd_template.Ordering.Values.{
  OrderId, new_order_id, new_customer_id, new_reservation_ref, new_sku, new_quantity,
}
use go_ddd_template.Ordering.Money.{new_money}
use go_ddd_template.Ordering.Order.{
  OrderLine, new_order_line, OrderStatus, confirmed, cancelled, Order, reconstitute_order,
  status_string, mark_persisted,
}
use go_ddd_template.Ordering.Ports.{OrderStore}
use go_ddd_template.Ordering.Postgres.{
  OrderRow, OrderLineRow, UpdateOrderParams, OrderQueries, failed,
}

unfoldable pub parse_order_status : String → Result Error OrderStatus
parse_order_status s =
    if str_eq s "confirmed"
    then ok confirmed
    else if str_eq s "cancelled"
    then ok cancelled
    else err other_error

-- One round of the loop of reconstitute.
unfoldable pub line_of_row : OrderLineRow → Result Error OrderLine
unfolding new_sku new_quantity new_money new_order_line
line_of_row lr = do
  sku ← map_err wrapped (new_sku lr.sku)
  qty ← map_err wrapped (new_quantity (of_int32 lr.quantity))
  price ← map_err wrapped (new_money lr.unit_price lr.currency)
  ok (new_order_line sku qty price)

unfoldable pub lines_of_rows : List OrderLineRow → List OrderLine → Result Error (List OrderLine)
unfolding line_of_row
lines_of_rows [] lines = ok lines
lines_of_rows (lr ∷ rows) lines = do l ← line_of_row lr; lines_of_rows rows (lines ++ l ∷ [])

abbrev lines_result : Result DbError (List OrderLineRow) → Result Error (List OrderLineRow)
lines_result (ok rows) = ok rows
lines_result (err e) = err (failed e)

unfoldable pub row_of_line : String → ℕ → OrderLine → OrderLineRow
row_of_line order_id i l = record {
  order_id = order_id;
  line_no = to_int32 i;
  sku = l.sku.value;
  quantity = to_int32 l.quantity.value;
  unit_price = l.unit_price.amount;
  currency = l.unit_price.currency;
}

unfoldable pub inserted_row : Order → OrderRow
unfolding status_string
inserted_row o = record {
  id = o.id.value;
  customer_id = o.customer.value;
  status = status_string o.status;
  total_amount = o.total.amount;
  total_currency = o.total.currency;
  reservation_ref = o.reservation_ref.value;
  version = 1;
}

unfoldable pub update_params : Order → UpdateOrderParams
unfolding status_string
update_params o = record {
  status = status_string o.status;
  version = to_int32 (add_int o.version 1);
  id = o.id.value;
  expected = to_int32 o.version;
}

module _ {T : Type 0} (q : OrderQueries T) where
  unfoldable pub reconstitute : OrderRow → T → Result Error Order
  unfolding new_order_id new_customer_id parse_order_status new_money new_reservation_ref
      lines_of_rows reconstitute_order
  reconstitute row tx = do
    order_id ← map_err wrapped (new_order_id row.id)
    customer ← map_err wrapped (new_customer_id row.customer_id)
    status ← parse_order_status row.status
    total ← map_err wrapped (new_money row.total_amount row.total_currency)
    ref ← map_err wrapped (new_reservation_ref row.reservation_ref)
    line_rows ← lines_result (q.list_order_lines row.id tx)
    lines ← lines_of_rows line_rows []
    ok (reconstitute_order order_id customer lines status total ref (of_int32 row.version))

  unfoldable pub load : OrderId → T → Result Error Order
  unfolding reconstitute
  load id tx = elim (q.get_order_by_id id.value tx) [
    | ok row ↦ reconstitute row tx
    | err no_rows ↦ err (wrapped (sentinel order_not_found))
    | err e ↦ err (failed e)
  ]

  -- The loop of insert from line `i` on.
  unfoldable pub insert_lines : String → ℕ → List OrderLine → T → T × Option Error
  unfolding row_of_line
  insert_lines order_id i [] tx = (tx, none)
  insert_lines order_id i (l ∷ lines) tx =
      let (tx', failure) = q.insert_order_line (row_of_line order_id i l) tx in
      elim failure [
        | some e ↦ (tx', some (failed e))
        | none ↦ insert_lines order_id (suc i) lines tx'
      ]

  -- The end of insert.
  abbrev pub inserted : Order → T × Option Error → T × Order × Option Error
  inserted o (tx, some e) = (tx, o, some e)
  inserted o (tx, none) = (tx, mark_persisted 1 o, none)

  unfoldable pub insert : Order → T → T × Order × Option Error
  unfolding insert_lines inserted_row mark_persisted
  insert o tx =
      let (tx', failure) = q.insert_order (inserted_row o) tx in
      elim failure [
        | none ↦ inserted o (insert_lines o.id.value 0 o.lines tx')
        | some unique_violation ↦ (tx', o, some (wrapped concurrency_conflict))
        | some e ↦ (tx', o, some (failed e))
      ]

  unfoldable pub update : Order → T → T × Order × Option Error
  unfolding update_params mark_persisted
  update o tx =
      let (tx', out) = q.update_order (update_params o) tx in
      elim out [
        | err e ↦ (tx', o, some (failed e))
        | ok rows ↦
            if rows == 0
            then (tx', o, some (wrapped concurrency_conflict))
            else (tx', mark_persisted (add_int o.version 1) o, none)
      ]

  unfoldable pub save : Order → T → T × Order × Option Error
  unfolding insert update
  save o tx = if o.version == 0 then insert o tx else update o tx

  abbrev pub order_store : OrderStore T
  order_store = record { load = λ id tx. (tx, load id tx); save = save }
