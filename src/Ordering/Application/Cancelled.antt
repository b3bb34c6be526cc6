-- ===== src/Ordering/Application/Cancelled.antt =====
-- What CancelOrder stages over the store in memory: cancel_order.go of
-- contexts/ordering/internal/application over adapter/outbound/memory.
use go_ddd_template.Base.{
  ◌≡◌, Bool, String, str_eq, Option, none, some, [], ◌∷◌, ok, true, false, arith, ◌<◌, trim_space,
  add_int,
}
use go_ddd_template.Base.Dict.{lookup}
use go_ddd_template.Shared.Outbox.{Publisher, Message, object}
use go_ddd_template.Shared.Rows.{stage}
use go_ddd_template.Ordering.Errors.{Error, sentinel, order_not_confirmed}
use go_ddd_template.Ordering.Values.{OrderId, new_order_id, new_customer_id, new_reservation_ref}
use go_ddd_template.Ordering.Money.{new_money}
use go_ddd_template.Ordering.Order.{
  Order, is_confirmed, cancel, pull_events, mark_persisted, reconstitute_order,
}
use go_ddd_template.Ordering.Store.{
  OrderRow, order_to_order_row, order_row_to_order, parse_order_status,
}
use go_ddd_template.Ordering.Store.Unit.{
  World, Tx, begin, memory_unit, load_order, save_order, next_version,
}
use go_ddd_template.Ordering.Application.{payload_fields, type_order_cancelled, to_outbox_message}
use go_ddd_template.Ordering.Application.Cancel.{Attempts, enqueue_events, cancel_command}

-- What a loaded order has of its row.
row_fields :
    (r : OrderRow) (o : Order)
    → order_row_to_order r ≡ ok o
    → (o.id.value ≡ trim_space r.id) × (o.version ≡ r.version) × (o.events ≡ [])
unfolding order_row_to_order reconstitute_order new_order_id new_customer_id new_money
    new_reservation_ref
row_fields r o h = ground (arith, h)

status_of_row :
    (r : OrderRow) (o : Order)
    → order_row_to_order r ≡ ok o
    → is_confirmed o.status ≡ str_eq r.status "confirmed"
unfolding order_row_to_order parse_order_status reconstitute_order new_order_id new_customer_id
    new_money new_reservation_ref
status_of_row r o h = ground (arith, h)

module _ {W : Type 0} (sink : Option (Publisher Error W)) (id : OrderId) (trace_id : String)
    (attempts : Attempts) (w : World W) where
  abbrev pub attempt : (Attempts × Tx W) × Option Error
  attempt = cancel_command (memory_unit sink).repos id trace_id (attempts, begin sink w)

  abbrev pub order_cancelled_message : Order → Message
  order_cancelled_message o = record {
    id = (attempts 0).ids 0;
    type_name = type_order_cancelled;
    payload = object (payload_fields o.reservation_ref.value o.id.value);
    trace_id = trace_id;
    occurred_at = (attempts 0).clock 0;
  }

  -- The attempt has succeeded and staged the row and the message, or it has failed and staged nothing.
  abbrev pub Staged : Bool → OrderRow → Order → Type 0
  Staged true r o =
      (attempt.1 ≡ none)
      × (attempt.0.1.staged_msgs ≡ order_cancelled_message o ∷ [])
      × (attempt.0.1.staged_orders
          ≡ (id.value, record (order_to_order_row o (add_int r.version 1)) { status = "cancelled" })
            ∷ [])
  Staged false r o =
      (attempt.1 ≡ some (sentinel order_not_confirmed)) × (attempt.0.1 ≡ begin sink w)

  -- CancelOrder of an order that is stored and not confirmed: over the store in memory an attempt
  -- fails with ErrOrderNotConfirmed and stages nothing, neither an order nor a message.
  pub cancel_refused :
      (r : OrderRow) (o : Order)
      → lookup id.value w.orders ≡ some r
      → order_row_to_order r ≡ ok o
      → is_confirmed o.status ≡ false
      → (attempt.1 ≡ some (sentinel order_not_confirmed)) × (attempt.0.1 ≡ begin sink w)
  unfolding cancel_command load_order cancel
  cancel_refused r o l h c = ground (arith, l, h, c)

  Staged-by_status :
      (r : OrderRow) (o : Order) (is_open : Bool)
      → lookup id.value w.orders ≡ some r
      → r.id ≡ id.value
      → trim_space id.value ≡ id.value
      → 0 < r.version
      → order_row_to_order r ≡ ok o
      → is_confirmed o.status ≡ is_open
      → Staged is_open r o
  unfolding cancel_command load_order save_order next_version stage cancel enqueue_events
      mark_persisted pull_events to_outbox_message order_to_order_row
  Staged-by_status r o true l k t v h c = ground (arith, l, k, t, h, c, row_fields r o h)
  Staged-by_status r o false l k t v h c = cancel_refused r o l h c

  -- CancelOrder of an order that is stored under its identifier, trimmed, with a version of at
  -- least 1 and a row that can be read, over the store in memory. If the row's status is confirmed,
  -- an attempt succeeds and stages the order's row with the status cancelled, one version on,
  -- together with its one message, which names the order and its reservation. If not, the attempt
  -- fails with ErrOrderNotConfirmed and stages nothing, neither an order nor a message.
  pub cancel_stages :
      (r : OrderRow) (o : Order)
      → lookup id.value w.orders ≡ some r
      → r.id ≡ id.value
      → trim_space id.value ≡ id.value
      → 0 < r.version
      → order_row_to_order r ≡ ok o
      → Staged (str_eq r.status "confirmed") r o
  cancel_stages r o l k t v h = Staged-by_status r o _ l k t v h (status_of_row r o h)
