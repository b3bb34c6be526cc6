-- ===== src/Ordering/Application/Shipments.antt =====
-- The shipment use cases: application/prepare_shipment.go and mark_shipped.go. A shipment is made for
-- an order that is confirmed when it is read, outside the transaction of the shipment.
use go_ddd_template.Base.{
  ℕ, suc, String, Option, none, some, Clock, Result, ok, err, ◌>>=◌, map_err, not, if◌then◌else◌,
}
use go_ddd_template.Ordering.Errors.{
  Error, wrapped, other_error, port_error, order_not_confirmed_for_shipment,
}
use go_ddd_template.Ordering.Values.{
  OrderId, ShipmentId, TrackingNumber, new_order_id, new_shipment_id, new_tracking_number,
}
use go_ddd_template.Ordering.Order.{Order, is_confirmed}
use go_ddd_template.Ordering.Shipment.{Shipment, new_shipment, mark_shipped, pull_events}
use go_ddd_template.Ordering.Validation.{locate}
use go_ddd_template.Ordering.Ports.{OrderStore, ShipmentStore}
use go_ddd_template.Ordering.Application.{Deps, run_command}

-- The closure of PrepareShipment.Handle. The shipment is a variable of the use case.
unfoldable pub prepare_command :
    {T : Type 0} → ShipmentStore T → Shipment × T → (Shipment × T) × Option Error
prepare_command store (s, tx) = let (tx', s', failure) = store.save s tx in ((s', tx'), failure)

-- The closure of MarkShipped.Handle; `clocks n` are the readings of the `n`-th attempt from now, and
-- the shipment is the variable that it leaves.
unfoldable pub ship_command :
    {T : Type 0}
    → ShipmentStore T
    → ShipmentId
    → TrackingNumber
    → ((ℕ → Clock) × Option Shipment) × T
    → (((ℕ → Clock) × Option Shipment) × T) × Option Error
unfolding mark_shipped
ship_command store id tn ((clocks, shipped), tx) =
    let next : ℕ → Clock = λ n. clocks (suc n) in
    let (tx', loaded) = store.load id tx in
    elim loaded [
      | err e ↦ (((next, shipped), tx'), some e)
      | ok s ↦
          let (s', refused) = mark_shipped (clocks 0) tn s in
          elim refused [
            | some e ↦ (((next, shipped), tx'), some e)
            | none ↦
                let (tx'', saved, failure) = store.save s' tx' in
                elim failure [
                  | some e ↦ (((next, shipped), tx''), some e)
                  | none ↦ (((next, some saved), tx''), none)
                ]
          ]
    ]

unfoldable pub check_ship : String → String → Result Error (ShipmentId × TrackingNumber)
unfolding new_shipment_id new_tracking_number locate
check_ship id_text tracking_number = do
  id ← map_err (locate "") (new_shipment_id id_text)
  tn ← map_err (locate "") (new_tracking_number tracking_number)
  ok (id, tn)

module _ {T S : Type 0} (deps : Deps T S) where
  -- The end of PrepareShipment.Handle: the shipment that the run has stored.
  abbrev prepared : ShipmentId → (Shipment × S) × Option Error → S × Result Error ShipmentId
  prepared id ((shipment, s), some e) = (s, err e)
  prepared id ((shipment, s), none) = (s, ok id)

  abbrev prepare_identified : OrderId → Result Error ShipmentId → S → S × Result Error ShipmentId
  prepare_identified order_id (err e) s = (s, err e)
  prepare_identified order_id (ok id) s =
      prepared id
        (run_command deps (prepare_command deps.work.repos.shipments) (new_shipment id order_id, s))

  abbrev prepare_loaded : String → OrderId → S × Result Error Order → S × Result Error ShipmentId
  prepare_loaded new_id order_id (s, err e) = (s, err e)
  prepare_loaded new_id order_id (s, ok o) =
      if not (is_confirmed o.status)
      then (s, err (wrapped (port_error order_not_confirmed_for_shipment)))
      else prepare_identified order_id (new_shipment_id new_id) s

  abbrev prepare_checked :
      OrderStore S → String → Result Error OrderId → S → S × Result Error ShipmentId
  prepare_checked read new_id (err e) s = (s, err e)
  prepare_checked read new_id (ok order_id) s =
      prepare_loaded new_id order_id (read.load order_id s)

  -- `new_id` is what id.New makes.
  unfoldable pub prepare_shipment : OrderStore S → String → String → S → S × Result Error ShipmentId
  unfolding new_order_id new_shipment_id new_shipment prepare_command run_command locate
  prepare_shipment read new_id order_id_text s =
      prepare_checked read new_id (map_err (locate "") (new_order_id order_id_text)) s

  -- The end of MarkShipped.Handle: the events of the shipment. A run without an attempt would leave
  -- the nil pointer, on which PullEvents panics.
  abbrev shipped_end : (((ℕ → Clock) × Option Shipment) × S) × Option Error → S × Option Error
  shipped_end ((vars, s), some e) = (s, some e)
  shipped_end (((clocks, some shipment), s), none) =
      (deps.dispatch (pull_events shipment).1 s, none)
  shipped_end (((clocks, none), s), none) = (s, some other_error)

  abbrev ship_checked :
      (ℕ → Clock) → Result Error (ShipmentId × TrackingNumber) → S → S × Option Error
  ship_checked clocks (err e) s = (s, some e)
  ship_checked clocks (ok (id, tn)) s =
      shipped_end
        (run_command deps (ship_command deps.work.repos.shipments id tn) ((clocks, none), s))

  unfoldable pub mark_shipped_use_case : (ℕ → Clock) → String → String → S → S × Option Error
  unfolding check_ship ship_command run_command
  mark_shipped_use_case clocks id_text tracking_number s =
      ship_checked clocks (check_ship id_text tracking_number) s
