-- ===== src/Ordering/Postgres/Shipments.antt =====
-- The store of shipments and the unit of work: shipment_store.go, outbox.go and uow.go of
-- contexts/ordering/internal/adapter/outbound/postgres.
use go_ddd_template.Base.{
  String, Option, none, some, add_int, to_int32, of_int32, ◌==◌, str_eq, is_empty, Result, ok, err,
  ◌>>=◌, map_err, if◌then◌else◌,
}
use go_ddd_template.Shared.Postgres.{no_rows, unique_violation, Pool, within}
use go_ddd_template.Shared.Postgres.Outbox.{OutboxQueries, enqueue}
use go_ddd_template.Ordering.Errors.{
  Error, sentinel, wrapped, concurrency_conflict, other_error, shipment_not_found,
}
use go_ddd_template.Ordering.Values.{
  ShipmentId, TrackingNumber, new_shipment_id, new_order_id, new_tracking_number,
}
use go_ddd_template.Ordering.Shipment.{
  ShipmentStatus, preparing, shipped, Shipment, reconstitute_shipment, no_tracking_number,
  status_string, mark_persisted,
}
use go_ddd_template.Ordering.Ports.{ShipmentStore, UnitOfWork}
use go_ddd_template.Ordering.Postgres.{ShipmentRow, UpdateShipmentParams, OrderQueries, failed}
use go_ddd_template.Ordering.Postgres.Orders.{order_store}

unfoldable pub parse_shipment_status : String → Result Error ShipmentStatus
parse_shipment_status s =
    if str_eq s "preparing"
    then ok preparing
    else if str_eq s "shipped"
    then ok shipped
    else err other_error

-- The tracking number of a row: the zero value for an empty text.
unfoldable pub tracking_number_of : String → Result Error TrackingNumber
unfolding new_tracking_number
tracking_number_of s =
    if is_empty s then ok no_tracking_number else map_err wrapped (new_tracking_number s)

unfoldable pub reconstitute : ShipmentRow → Result Error Shipment
unfolding new_shipment_id new_order_id parse_shipment_status tracking_number_of
    reconstitute_shipment
reconstitute row = do
  shipment_id ← map_err wrapped (new_shipment_id row.id)
  order_id ← map_err wrapped (new_order_id row.order_id)
  status ← parse_shipment_status row.status
  tn ← tracking_number_of row.tracking_number
  ok (reconstitute_shipment shipment_id order_id status tn (of_int32 row.version))

unfoldable pub inserted_row : Shipment → ShipmentRow
unfolding status_string
inserted_row s = record {
  id = s.id.value;
  order_id = s.order_id.value;
  status = status_string s.status;
  tracking_number = s.tracking_number.value;
  version = 1;
}

unfoldable pub update_params : Shipment → UpdateShipmentParams
unfolding status_string
update_params s = record {
  status = status_string s.status;
  tracking_number = s.tracking_number.value;
  version = to_int32 (add_int s.version 1);
  id = s.id.value;
  expected = to_int32 s.version;
}

module _ {T : Type 0} (q : OrderQueries T) where
  unfoldable pub load : ShipmentId → T → Result Error Shipment
  unfolding reconstitute
  load id tx = elim (q.get_shipment_by_id id.value tx) [
    | ok row ↦ reconstitute row
    | err no_rows ↦ err (wrapped (sentinel shipment_not_found))
    | err e ↦ err (failed e)
  ]

  unfoldable pub insert : Shipment → T → T × Shipment × Option Error
  unfolding inserted_row mark_persisted
  insert s tx =
      let (tx', failure) = q.insert_shipment (inserted_row s) tx in
      elim failure [
        | none ↦ (tx', mark_persisted 1 s, none)
        | some unique_violation ↦ (tx', s, some (wrapped concurrency_conflict))
        | some e ↦ (tx', s, some (failed e))
      ]

  unfoldable pub update : Shipment → T → T × Shipment × Option Error
  unfolding update_params mark_persisted
  update s tx =
      let (tx', out) = q.update_shipment (update_params s) tx in
      elim out [
        | err e ↦ (tx', s, some (failed e))
        | ok rows ↦
            if rows == 0
            then (tx', s, some (wrapped concurrency_conflict))
            else (tx', mark_persisted (add_int s.version 1) s, none)
      ]

  unfoldable pub save : Shipment → T → T × Shipment × Option Error
  unfolding insert update
  save s tx = if s.version == 0 then insert s tx else update s tx

  abbrev pub shipment_store : ShipmentStore T
  shipment_store = record { load = λ id tx. (tx, load id tx); save = save }

-- The unit of work over a pool, for one trace of the context.
abbrev pub postgres_unit :
    {T S : Type 0} → OrderQueries T → OutboxQueries T → Pool Error T S → String → UnitOfWork T S
postgres_unit q out pool context_trace = record {
  repos = record {
    orders = order_store q;
    shipments = shipment_store q;
    outbox = enqueue out failed context_trace;
  };
  within = within pool wrapped;
}
