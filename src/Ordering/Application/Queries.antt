-- ===== src/Ordering/Application/Queries.antt =====
-- The queries: application/get_order.go, get_shipment.go and view.go.
use go_ddd_template.Base.{String, List, [], ◌∷◌, GoInt, Result, ok, err, ◌>>=◌, map_err}
use go_ddd_template.Ordering.Errors.{Error}
use go_ddd_template.Ordering.Values.{OrderId, ShipmentId, new_order_id, new_shipment_id}
use go_ddd_template.Ordering.Order.{OrderLine, Order, subtotal}
use go_ddd_template.Ordering.Order as Orders
use go_ddd_template.Ordering.Shipment.{Shipment}
use go_ddd_template.Ordering.Shipment as Shipments
use go_ddd_template.Ordering.Validation.{locate}
use go_ddd_template.Ordering.Ports.{OrderStore, ShipmentStore}

pub record OrderLineView : Type 0 where
  pub sku : String
  pub quantity : GoInt
  pub unit_price_amount : GoInt
  pub unit_price_currency : String
  pub subtotal_amount : GoInt
  pub subtotal_currency : String

pub record OrderView : Type 0 where
  pub id : String
  pub customer_id : String
  pub status : String
  pub lines : List OrderLineView
  pub total_amount : GoInt
  pub total_currency : String
  pub reservation_ref : String
  pub version : GoInt

unfoldable pub view_lines : List OrderLine → List OrderLineView
unfolding subtotal
view_lines [] = []
view_lines (l ∷ lines) =
    record {
      sku = l.sku.value;
      quantity = l.quantity.value;
      unit_price_amount = l.unit_price.amount;
      unit_price_currency = l.unit_price.currency;
      subtotal_amount = (subtotal l).amount;
      subtotal_currency = (subtotal l).currency;
    }
    ∷ view_lines lines

unfoldable pub to_order_view : Order → OrderView
unfolding Orders.status_string view_lines
to_order_view o = record {
  id = o.id.value;
  customer_id = o.customer.value;
  status = Orders.status_string o.status;
  lines = view_lines o.lines;
  total_amount = o.total.amount;
  total_currency = o.total.currency;
  reservation_ref = o.reservation_ref.value;
  version = o.version;
}

pub record ShipmentView : Type 0 where
  pub id : String
  pub order_id : String
  pub status : String
  pub tracking_number : String
  pub version : GoInt

unfoldable pub to_shipment_view : Shipment → ShipmentView
unfolding Shipments.status_string
to_shipment_view s = record {
  id = s.id.value;
  order_id = s.order_id.value;
  status = Shipments.status_string s.status;
  tracking_number = s.tracking_number.value;
  version = s.version;
}

module _ {S : Type 0} where
  abbrev order_loaded : OrderStore S → Result Error OrderId → S → S × Result Error OrderView
  order_loaded read (err e) s = (s, err e)
  order_loaded read (ok id) s =
      let (s', loaded) = read.load id s in (s', loaded >>= λ o. ok (to_order_view o))

  unfoldable pub get_order : OrderStore S → String → S → S × Result Error OrderView
  unfolding new_order_id locate to_order_view
  get_order read id_text = order_loaded read (map_err (locate "") (new_order_id id_text))

  abbrev shipment_loaded :
      ShipmentStore S → Result Error ShipmentId → S → S × Result Error ShipmentView
  shipment_loaded read (err e) s = (s, err e)
  shipment_loaded read (ok id) s =
      let (s', loaded) = read.load id s in (s', loaded >>= λ x. ok (to_shipment_view x))

  unfoldable pub get_shipment : ShipmentStore S → String → S → S × Result Error ShipmentView
  unfolding new_shipment_id locate to_shipment_view
  get_shipment read id_text = shipment_loaded read (map_err (locate "") (new_shipment_id id_text))
