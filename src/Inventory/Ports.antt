-- ===== src/Inventory/Ports.antt =====
-- The ports of the application: application/ports.go, with uow.UnitOfWork of shared/uow/uow.go. `T` is
-- the state inside a transaction, with all that other goroutines do to it between two calls, and
-- `S` the state around it. The variables `V` of a use case that its closure writes are kept by both.
use go_ddd_template.Base.{Option, List, GoInt, Time, Result}
use go_ddd_template.Inventory.Errors.{Error}
use go_ddd_template.Inventory.Values.{Sku, ReservationRef}
use go_ddd_template.Inventory.StockItem.{StockItem}
use go_ddd_template.Shared.Outbox.{Message}

pub record StockStore (T : Type 0) : Type 0 where
  pub load : Sku → T → T × Result Error StockItem
  pub load_many : List Sku → T → T × Result Error (List StockItem)
  pub load_by_reservation : ReservationRef → T → T × Result Error (List StockItem)
  pub load_expired_pending : Time → GoInt → T → T × Result Error (List StockItem)
  -- the aggregates as it leaves them, too
  pub save : List StockItem → T → T × List StockItem × Option Error

-- The method of a MessagePublisher.
abbrev pub MessagePublisher : Type 0 → Type 0
MessagePublisher T = Message → T → T × Option Error

pub record Repos (T : Type 0) : Type 0 where
  pub stock : StockStore T
  pub outbox : MessagePublisher T

pub record UnitOfWork (T S : Type 0) : Type 1 where
  pub repos : Repos T
  pub within : {V : Type 0} → (V × T → (V × T) × Option Error) → V × S → (V × S) × Option Error
