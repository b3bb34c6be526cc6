-- ===== src/Ordering/Shipment.antt =====
-- The aggregate Shipment: domain/shipment.go. It names its order by the identifier only.
pub mod Life
use go_ddd_template.Base.{
  ℕ, String, Bool, true, false, not, Option, none, some, List, [], ◌∷◌, ◌++◌, GoInt, Clock,
  if◌then◌else◌,
}
use go_ddd_template.Ordering.Errors.{Error, sentinel, shipment_not_preparing}
use go_ddd_template.Ordering.Values.{ShipmentId, OrderId, TrackingNumber}
use go_ddd_template.Ordering.Event.{DomainEvent, shipment_dispatched}

-- An int; `other` stands for the values that the program never makes.
pub data ShipmentStatus : Type 0 where
  preparing shipped : ShipmentStatus
  other : ℕ → ShipmentStatus

unfoldable pub status_string : ShipmentStatus → String
status_string preparing = "preparing"
status_string shipped = "shipped"
status_string (other n) = "unknown"

abbrev pub is_preparing : ShipmentStatus → Bool
is_preparing preparing = true
is_preparing shipped = false
is_preparing (other n) = false

pub record Shipment : Type 0 where
  pub id : ShipmentId
  pub order_id : OrderId
  pub status : ShipmentStatus
  -- the zero value while it is being prepared
  pub tracking_number : TrackingNumber
  pub version : GoInt
  pub events : List DomainEvent

abbrev pub no_tracking_number : TrackingNumber
no_tracking_number = record { value = "" }

unfoldable pub new_shipment : ShipmentId → OrderId → Shipment
new_shipment id order_id = record {
  id = id;
  order_id = order_id;
  status = preparing;
  tracking_number = no_tracking_number;
  version = 0;
  events = [];
}

unfoldable pub reconstitute_shipment :
    ShipmentId → OrderId → ShipmentStatus → TrackingNumber → GoInt → Shipment
reconstitute_shipment id order_id status tn version = record {
  id = id;
  order_id = order_id;
  status = status;
  tracking_number = tn;
  version = version;
  events = [];
}

abbrev pub record_event : DomainEvent → Shipment → Shipment
record_event e s = record s { events = s.events ++ e ∷ [] }

unfoldable pub mark_shipped : Clock → TrackingNumber → Shipment → Shipment × Option Error
mark_shipped clk tn s =
    if not (is_preparing s.status)
    then (s, some (sentinel shipment_not_preparing))
    else let s' = record s { status = shipped; tracking_number = tn } in
      (record_event (shipment_dispatched s.id.value s.order_id.value tn.value (clk 0)) s', none)

unfoldable pub mark_persisted : GoInt → Shipment → Shipment
mark_persisted version s = record s { version = version }

unfoldable pub pull_events : Shipment → Shipment × List DomainEvent
pull_events s = (record s { events = [] }, s.events)
