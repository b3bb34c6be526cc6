-- ===== src/Ordering/Ports.antt =====
-- The ports of the ordering application: application/ports.go. `T` is the state inside a transaction,
-- with all that other goroutines do to it between two calls, and `S` the state around it, with the
-- inventory that the reserver reaches. The variables `V` of a use case are kept by both.
use go_ddd_template.Base.{String, Option, List, GoInt, Result}
use go_ddd_template.Ordering.Errors.{Error}
use go_ddd_template.Ordering.Values.{OrderId, ShipmentId}
use go_ddd_template.Ordering.Order.{Order}
use go_ddd_template.Ordering.Shipment.{Shipment}
use go_ddd_template.Shared.Outbox.{Message}

pub record OrderStore (T : Type 0) : Type 0 where
  pub load : OrderId → T → T × Result Error Order
  -- the aggregate as it leaves it, too
  pub save : Order → T → T × Order × Option Error

pub record ShipmentStore (T : Type 0) : Type 0 where
  pub load : ShipmentId → T → T × Result Error Shipment
  pub save : Shipment → T → T × Shipment × Option Error

-- The method of a MessagePublisher.
abbrev pub MessagePublisher : Type 0 → Type 0
MessagePublisher T = Message → T → T × Option Error

pub record Repos (T : Type 0) : Type 0 where
  pub orders : OrderStore T
  pub shipments : ShipmentStore T
  pub outbox : MessagePublisher T

pub record UnitOfWork (T S : Type 0) : Type 1 where
  pub repos : Repos T
  pub within : {V : Type 0} → (V × T → (V × T) × Option Error) → V × S → (V × S) × Option Error

-- port.ReserveLine
pub record ReserveLine : Type 0 where
  pub sku : String
  pub qty : GoInt

pub record StockReserver (S : Type 0) : Type 0 where
  pub reserve : String → List ReserveLine → S → S × Option Error
  pub release : String → S → S × Option Error
