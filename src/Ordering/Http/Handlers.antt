-- ===== src/Ordering/Http/Handlers.antt =====
-- The handlers: contexts/ordering/internal/adapter/inbound/httpapi/handler.go. A handler that
-- changes something answers with the view that it reads after the change.
use go_ddd_template.Base.{ℕ, String, none, some, List, map, GoInt, Clock, Result, ok, err, ◌>>=◌}
use go_ddd_template.Ordering.Errors.{Error}
use go_ddd_template.Ordering.Ports.{OrderStore, ShipmentStore}
use go_ddd_template.Ordering.Application.{Deps}
use go_ddd_template.Ordering.Application.Place
use go_ddd_template.Ordering.Application.Place.{PlaceOrderInput, PlaceOrderLine, Made}
use go_ddd_template.Ordering.Application.Cancel
use go_ddd_template.Ordering.Application.Shipments
use go_ddd_template.Ordering.Application.Queries

-- The generated Money, and the request and the views that hold it.
pub record Money : Type 0 where
  pub amount : GoInt
  pub currency : String

pub record RequestLine : Type 0 where
  pub sku : String
  pub quantity : GoInt
  pub unit_price : Money

pub record PlaceOrderRequest : Type 0 where
  pub customer_id : String
  pub lines : List RequestLine

pub record OrderLineView : Type 0 where
  pub sku : String
  pub quantity : GoInt
  pub unit_price : Money
  pub subtotal : Money

pub record OrderView : Type 0 where
  pub id : String
  pub customer_id : String
  pub status : String
  pub lines : List OrderLineView
  pub total : Money
  pub reservation_ref : String
  pub version : GoInt

pub record ShipmentView : Type 0 where
  pub id : String
  pub order_id : String
  pub status : String
  pub tracking_number : String
  pub version : GoInt

abbrev to_place_order_line : RequestLine → PlaceOrderLine
to_place_order_line l = record {
  sku = l.sku;
  quantity = l.quantity;
  unit_price_amount = l.unit_price.amount;
  currency = l.unit_price.currency;
}

unfoldable pub to_place_order_input : PlaceOrderRequest → PlaceOrderInput
to_place_order_input req = record {
  customer_id = req.customer_id;
  lines = map to_place_order_line req.lines;
}

abbrev to_order_line_view : Queries.OrderLineView → OrderLineView
to_order_line_view l = record {
  sku = l.sku;
  quantity = l.quantity;
  unit_price = record { amount = l.unit_price_amount; currency = l.unit_price_currency };
  subtotal = record { amount = l.subtotal_amount; currency = l.subtotal_currency };
}

unfoldable pub to_order_view : Queries.OrderView → OrderView
to_order_view v = record {
  id = v.id;
  customer_id = v.customer_id;
  status = v.status;
  lines = map to_order_line_view v.lines;
  total = record { amount = v.total_amount; currency = v.total_currency };
  reservation_ref = v.reservation_ref;
  version = v.version;
}

unfoldable pub to_shipment_view : Queries.ShipmentView → ShipmentView
to_shipment_view v = record {
  id = v.id;
  order_id = v.order_id;
  status = v.status;
  tracking_number = v.tracking_number;
  version = v.version;
}

unfoldable pub get_order : {S : Type 0} → OrderStore S → String → S → S × Result Error OrderView
unfolding Queries.get_order to_order_view
get_order read id s =
    let (s', out) = Queries.get_order read id s in (s', out >>= λ v. ok (to_order_view v))

unfoldable pub get_shipment :
    {S : Type 0} → ShipmentStore S → String → S → S × Result Error ShipmentView
unfolding Queries.get_shipment to_shipment_view
get_shipment read id s =
    let (s', out) = Queries.get_shipment read id s in (s', out >>= λ v. ok (to_shipment_view v))

module _ {T S : Type 0} (deps : Deps T S) where
  unfoldable pub place_order :
      OrderStore S → Made → PlaceOrderRequest → S → S × Result Error OrderView
  unfolding Place.place_order to_place_order_input get_order
  place_order read made req s =
      let (s', out) = Place.place_order deps made (to_place_order_input req) s in
      elim out [ err e ↦ (s', err e) | ok id ↦ get_order read id.value s' ]

  -- `attempts` is what the attempts of the use case read, and `trace_id` the trace of the context.
  unfoldable pub cancel_order :
      OrderStore S → Cancel.Attempts → String → String → S → S × Result Error OrderView
  unfolding Cancel.cancel_order get_order
  cancel_order read attempts trace_id id s =
      let (s', failure) = Cancel.cancel_order deps attempts trace_id id s in
      elim failure [ some e ↦ (s', err e) | none ↦ get_order read id s' ]

  -- `new_id` is what id.New makes.
  unfoldable pub prepare_shipment :
      OrderStore S → ShipmentStore S → String → String → S → S × Result Error ShipmentView
  unfolding Shipments.prepare_shipment get_shipment
  prepare_shipment orders read new_id order_id s =
      let (s', out) = Shipments.prepare_shipment deps orders new_id order_id s in
      elim out [ err e ↦ (s', err e) | ok id ↦ get_shipment read id.value s' ]

  unfoldable pub mark_shipped :
      ShipmentStore S → (ℕ → Clock) → String → String → S → S × Result Error ShipmentView
  unfolding Shipments.mark_shipped_use_case get_shipment
  mark_shipped read clocks id tracking_number s =
      let (s', failure) = Shipments.mark_shipped_use_case deps clocks id tracking_number s in
      elim failure [ some e ↦ (s', err e) | none ↦ get_shipment read id s' ]
