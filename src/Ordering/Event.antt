-- ===== src/Ordering/Event.antt =====
-- Domain events of the ordering context: domain/event.go. A constructor has the fields of its
-- struct, in their order.
use go_ddd_template.Base.{String, GoInt, Time}

pub data DomainEvent : Type 0 where
  order_placed :
      (order_id customer_id reservation_ref : String) (total_amount : GoInt) (currency : String)
      (time : Time)
      → DomainEvent
  order_cancelled : (order_id reservation_ref : String) (time : Time) → DomainEvent
  shipment_dispatched : (shipment_id order_id tracking_number : String) (time : Time) → DomainEvent

unfoldable pub event_name : DomainEvent → String
event_name (order_placed id customer ref amount currency t) = "ordering.order_placed"
event_name (order_cancelled id ref t) = "ordering.order_cancelled"
event_name (shipment_dispatched id order tn t) = "ordering.shipment_dispatched"

unfoldable pub occurred_at : DomainEvent → Time
occurred_at (order_placed id customer ref amount currency t) = t
occurred_at (order_cancelled id ref t) = t
occurred_at (shipment_dispatched id order tn t) = t
