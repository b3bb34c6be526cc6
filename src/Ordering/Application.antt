-- ===== src/Ordering/Application.antt =====
-- The use cases of the ordering context: application/place_order.go, cancel_order.go,
-- prepare_shipment.go and mark_shipped.go, with the messages of messages.go. `T` is the state
-- inside a transaction and `S` the state around it, as in Ports. Logging is left out.
pub mod Place
pub mod Cancel
pub mod Compensation
pub mod PlaceAttempt
pub mod Committed
pub mod Cancelled
pub mod Shipments
pub mod Queries
use go_ddd_template.Base.{
  ℕ, String, Option, none, some, List, [], ◌∷◌, GoInt, Time, Clock, Result, ok, err, is_empty,
  if◌then◌else◌,
}
use go_ddd_template.Base.Dict.{Dict}
use go_ddd_template.Shared.Uow.{Executor, run}
use go_ddd_template.Shared.Outbox.{Message, object}
use go_ddd_template.Ordering.Errors.{Error, is_conflict}
use go_ddd_template.Ordering.Values.{ReservationRef}
use go_ddd_template.Ordering.Event.{DomainEvent, order_placed, order_cancelled, shipment_dispatched}
use go_ddd_template.Ordering.Ports.{UnitOfWork, StockReserver}

-- What the use cases are made with; and the timer that the back-off waits on.
pub record Deps (T S : Type 0) : Type 1 where
  pub exec : Executor
  pub work : UnitOfWork T S
  pub reserver : StockReserver S
  pub dispatch : List DomainEvent → S → S
  pub timer : GoInt → S → S × Option Error

abbrev pub type_confirm_reservation : String
type_confirm_reservation = "ordering.reservation.confirm_requested"

abbrev pub type_order_cancelled : String
type_order_cancelled = "ordering.order.cancelled"

-- The fields of reservationRefPayload in JSON; an empty order identifier is left out.
unfoldable pub payload_fields : String → String → Dict String
payload_fields ref order_id =
    ("reservation_ref", ref) ∷ (if is_empty order_id then [] else ("order_id", order_id) ∷ [])

-- `id` is what id.New makes and `now` the reading of the clock; json.Marshal of two texts never fails.
unfoldable pub confirm_reservation_message : ReservationRef → String → String → Time → Message
unfolding payload_fields
confirm_reservation_message ref trace_id id now = record {
  id = id;
  type_name = type_confirm_reservation;
  payload = object (payload_fields ref.value "");
  trace_id = trace_id;
  occurred_at = now;
}

-- `none` for an event that has no message.
unfoldable pub to_outbox_message : DomainEvent → String → String → Option Message
unfolding payload_fields
to_outbox_message (order_placed order_id customer ref total currency time) trace_id id = none
to_outbox_message (order_cancelled order_id ref time) trace_id id = some (record {
  id = id;
  type_name = type_order_cancelled;
  payload = object (payload_fields ref order_id);
  trace_id = trace_id;
  occurred_at = time;
})
to_outbox_message (shipment_dispatched shipment_id order_id tn time) trace_id id = none

module _ {T S V : Type 0} (deps : Deps T S) where
  -- The timer, which leaves the variables alone.
  abbrev pub wait : GoInt → V × S → (V × S) × Option Error
  wait d (vars, s) = let (s', failure) = deps.timer d s in ((vars, s'), failure)

  -- uow.Run on a command of a use case.
  unfoldable pub run_command : (V × T → (V × T) × Option Error) → V × S → (V × S) × Option Error
  unfolding run is_conflict
  run_command command = run is_conflict wait (deps.work.within command) deps.exec
