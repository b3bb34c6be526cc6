-- ===== src/Inventory/Event.antt =====
-- Domain events: domain/event.go. A constructor has the fields of its struct, in their order.
use go_ddd_template.Base.{String, GoInt, Time}

pub data DomainEvent : Type 0 where
  stock_replenished : (sku : String) (quantity_added available : GoInt) (time : Time) → DomainEvent
  stock_reserved :
      (sku reservation_ref : String) (quantity available : GoInt) (time : Time) → DomainEvent
  stock_reservation_confirmed : (sku reservation_ref : String) (time : Time) → DomainEvent
  stock_released :
      (sku reservation_ref : String) (quantity available : GoInt) (time : Time) → DomainEvent
  stock_depleted : (sku : String) (time : Time) → DomainEvent

unfoldable pub event_name : DomainEvent → String
event_name (stock_replenished sku n a t) = "inventory.stock_replenished"
event_name (stock_reserved sku ref n a t) = "inventory.stock_reserved"
event_name (stock_reservation_confirmed sku ref t) = "inventory.stock_reservation_confirmed"
event_name (stock_released sku ref n a t) = "inventory.stock_released"
event_name (stock_depleted sku t) = "inventory.stock_depleted"

unfoldable pub occurred_at : DomainEvent → Time
occurred_at (stock_replenished sku n a t) = t
occurred_at (stock_reserved sku ref n a t) = t
occurred_at (stock_reservation_confirmed sku ref t) = t
occurred_at (stock_released sku ref n a t) = t
occurred_at (stock_depleted sku t) = t
