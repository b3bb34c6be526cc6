-- ===== src/Integration/OrderTests.antt =====
-- A run of the theorem on placing an order over both contexts.
use go_ddd_template.Base.{Option, none, [], ◌∷◌, List, GoInt}
use go_ddd_template.Shared.Outbox.{Router}
use go_ddd_template.Inventory.Errors as Inv
use go_ddd_template.Inventory.Store.Unit as Stock
use go_ddd_template.Inventory.StockItem
use go_ddd_template.Inventory.StoreTests.{warehouse}
use go_ddd_template.Ordering.Errors.{Error}
use go_ddd_template.Ordering.Event.{DomainEvent}
use go_ddd_template.Ordering.Values.{OrderId}
use go_ddd_template.Ordering.Store.Unit.{World}
use go_ddd_template.Ordering.Application.Place.{Made, PlaceOrderInput}

abbrev no_routes : Router Inv.Error Stock.World
no_routes = []

abbrev shop : World Stock.World
shop = record {
  orders = [];
  shipments = [];
  stores = record { queue = []; log = [] };
  outside = warehouse;
}

abbrev silent : List DomainEvent → World Stock.World → World Stock.World
silent events w = w

abbrev at_once : GoInt → World Stock.World → World Stock.World × Option Error
at_once d w = (w, none)

abbrev made : Made
made = record { clock = λ i. 100; order_id = "order-1"; message_id = "m-1"; trace_id = "" }

abbrev wish : PlaceOrderInput
wish = record {
  customer_id = "bob";
  lines = record { sku = "BOLT"; quantity = 3; unit_price_amount = 120; currency = "JPY" } ∷ [];
}

abbrev order_1 : OrderId
order_1 = record { value = "order-1" }
