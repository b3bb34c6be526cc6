-- ===== src/Ordering/Tests.antt =====
-- Runs of the theorems on orders and shipments.
use go_ddd_template.Base.{
  ◌≡◌, refl, String, true, List, [], ◌∷◌, arith, GoInt, Clock, ok, err, is_negative, if◌then◌else◌,
}
use go_ddd_template.Ordering.Errors.{
  Error, sentinel, wrapped, violated, v_money_amount, invalid_money,
}
use go_ddd_template.Ordering.Values.{OrderId, CustomerId, ShipmentId, TrackingNumber}
use go_ddd_template.Ordering.Money.{Money, new_money}
use go_ddd_template.Ordering.Order.{OrderLine, Order, new_order, confirmed, cancelled}
use go_ddd_template.Ordering.Store.{order_to_order_row, order_row_to_order}
use go_ddd_template.Ordering.Order.Total.{
  confirmed_order, all_in, total_of, new_order_total, new_order_overflows,
}
use go_ddd_template.Ordering.Order.Life.{
  Command, do_cancel, do_persist, do_pull, after_commands, all_events, count_cancelled, cancels,
  order_life,
}
use go_ddd_template.Ordering.Shipment.Life as Ship

abbrev noon : Clock
noon i = 100

abbrev order_1 : OrderId
order_1 = record { value = "order-1" }

abbrev alice : CustomerId
alice = record { value = "alice" }

abbrev yen : GoInt → Money
yen n = record { amount = n; currency = "JPY" }

abbrev line : GoInt → Money → OrderLine
line n price = record {
  sku = record { value = "BOLT" };
  quantity = record { value = n };
  unit_price = price;
}

new_order_total_example : new_order noon order_1 alice (line 3 (yen 120) ∷ line 1 (yen 5) ∷ []) ≡ (
    if all_in "JPY" (line 1 (yen 5) ∷ [])
    then ok (
        confirmed_order noon order_1 alice
          (line 3 (yen 120) ∷ line 1 (yen 5) ∷ [])
          (total_of "JPY" (line 3 (yen 120) ∷ line 1 (yen 5) ∷ [])))
    else err (wrapped (sentinel invalid_money)))
new_order_total_example =
    new_order_total noon order_1 alice (line 3 (yen 120)) (line 1 (yen 5) ∷ []) (refl, (refl, tt))

-- 2 ^ 62 yen, twice.
abbrev dear : OrderLine
dear = line 2 (yen 4_611_686_018_427_387_904)

new_order_overflows_example :
    (o : Order) × (new_order noon order_1 alice (dear ∷ []) ≡ ok o)
    × (is_negative o.total.amount ≡ true)
    × (new_money o.total.amount o.total.currency ≡ err (violated v_money_amount))
    × (e : Error) × (order_row_to_order (order_to_order_row o 1) ≡ err e)
new_order_overflows_example =
    new_order_overflows noon order_1 alice dear [] 1 (refl, tt) refl (omega arith) (omega arith)

abbrev cancelled_twice : List Command
cancelled_twice = do_persist 1 ∷ do_pull ∷ do_cancel noon ∷ do_cancel noon ∷ []

order_life_example :
    ((after_commands noon order_1 alice [] (yen 0) cancelled_twice).order.status
      ≡ (if cancels cancelled_twice then cancelled else confirmed))
    × (count_cancelled (all_events (after_commands noon order_1 alice [] (yen 0) cancelled_twice))
        ≡ (if cancels cancelled_twice then 1 else 0))
order_life_example = order_life noon order_1 alice [] (yen 0) cancelled_twice

abbrev ship_1 : ShipmentId
ship_1 = record { value = "ship-1" }

abbrev tracked : String → TrackingNumber
tracked s = record { value = s }

abbrev shipped_twice : List Ship.Command
shipped_twice =
    Ship.do_persist 1 ∷ Ship.do_ship noon (tracked "T1") ∷ Ship.do_ship noon (tracked "T2") ∷ []

shipment_life_example :
    (
      (Ship.after_commands ship_1 order_1 shipped_twice).shipment.status,
      (Ship.after_commands ship_1 order_1 shipped_twice).shipment.tracking_number,
      Ship.all_events (Ship.after_commands ship_1 order_1 shipped_twice),
    )
    ≡ Ship.dispatched ship_1 order_1 (Ship.first_ship shipped_twice)
shipment_life_example = Ship.shipment_life ship_1 order_1 shipped_twice
