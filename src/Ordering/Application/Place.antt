-- ===== src/Ordering/Application/Place.antt =====
-- Placing an order: application/place_order.go. The stock is reserved outside the unit of work, and
-- released again where the order cannot be stored.
use go_ddd_template.Base.{
  ℕ, suc, String, Option, none, some, List, [], ◌∷◌, GoInt, Clock, Result, ok, err, ◌>>=◌, map_err,
}
use go_ddd_template.Shared.Outbox.{Message}
use go_ddd_template.Ordering.Errors.{Error}
use go_ddd_template.Ordering.Values.{OrderId, new_customer_id, new_order_id, new_sku, new_quantity}
use go_ddd_template.Ordering.Money.{new_money}
use go_ddd_template.Ordering.Order.{OrderLine, new_order_line, Order, new_order, pull_events}
use go_ddd_template.Ordering.Validation.{locate, line_path}
use go_ddd_template.Ordering.Ports.{ReserveLine, Repos}
use go_ddd_template.Ordering.Application.{Deps, run_command, confirm_reservation_message}

pub record PlaceOrderLine : Type 0 where
  pub sku : String
  pub quantity : GoInt
  pub unit_price_amount : GoInt
  pub currency : String

pub record PlaceOrderInput : Type 0 where
  pub customer_id : String
  pub lines : List PlaceOrderLine

-- The loop of toOrderLines from line `i` on.
unfoldable pub to_order_lines :
    ℕ → List PlaceOrderLine → Result Error (List OrderLine × List ReserveLine)
unfolding new_sku new_quantity new_money new_order_line locate line_path
to_order_lines i [] = ok ([], [])
to_order_lines i (l ∷ rest) = do
  sku ← map_err (locate (line_path i)) (new_sku l.sku)
  qty ← map_err (locate (line_path i)) (new_quantity l.quantity)
  price ← map_err (locate (line_path i)) (new_money l.unit_price_amount l.currency)
  out ← to_order_lines (suc i) rest
  ok (new_order_line sku qty price ∷ out.0, record { sku = sku.value; qty = qty.value } ∷ out.1)

-- What an order is made with: the readings of the clock, what id.New makes for the order and for
-- the message, and the trace.
pub record Made : Type 0 where
  pub clock : Clock
  pub order_id : String
  pub message_id : String
  pub trace_id : String

-- The checks of the input, up to the new order and the lines to reserve.
unfoldable pub check_place : Made → PlaceOrderInput → Result Error (Order × List ReserveLine)
unfolding to_order_lines new_customer_id new_order_id new_order locate
check_place made input = do
  customer ← map_err (locate "") (new_customer_id input.customer_id)
  out ← to_order_lines 0 input.lines
  order_id ← new_order_id made.order_id
  o ← map_err (locate "") (new_order made.clock order_id customer out.0)
  ok (o, out.1)

-- The closure of Handle. The order is a variable of the use case: a retry saves what the attempt
-- before has left of it.
unfoldable pub place_command :
    {T : Type 0} → Repos T → Message → Order × T → (Order × T) × Option Error
place_command repos msg (o, tx) =
    let (tx', o', failure) = repos.orders.save o tx in
    elim failure [
      | some e ↦ ((o', tx'), some e)
      | none ↦ let (tx'', refused) = repos.outbox msg tx' in ((o', tx''), refused)
    ]

module _ {T S : Type 0} (deps : Deps T S) where
  -- The end of Handle: the compensating Release, whose own error is only logged, or the events.
  abbrev pub finish : String → (Order × S) × Option Error → S × Result Error OrderId
  finish ref ((o, s), some e) = ((deps.reserver.release ref s).0, err e)
  finish ref ((o, s), none) = let (o', events) = pull_events o in (deps.dispatch events s, ok o'.id)

  -- Handle from the Reserve on.
  abbrev pub reserve_and_store : Made → Order → S × Option Error → S × Result Error OrderId
  reserve_and_store made o (s, some e) = (s, err e)
  reserve_and_store made o (s, none) = finish o.reservation_ref.value (
      run_command deps
        (place_command deps.work.repos (
          confirm_reservation_message o.reservation_ref made.trace_id made.message_id
            (made.clock 1)))
        (o, s))

  abbrev pub handle_checked :
      Made → Result Error (Order × List ReserveLine) → S → S × Result Error OrderId
  handle_checked made (err e) s = (s, err e)
  handle_checked made (ok (o, lines)) s =
      reserve_and_store made o (deps.reserver.reserve o.reservation_ref.value lines s)

  unfoldable pub place_order : Made → PlaceOrderInput → S → S × Result Error OrderId
  unfolding check_place
  place_order made input s = handle_checked made (check_place made input) s
