-- ===== src/Ordering/StoreTests.antt =====
-- Runs of the theorems on the ordering context's store in memory and on the use cases over it.
use go_ddd_template.Base.{
  ◌≡◌, keep_if, not, str_eq, refl, String, none, List, [], ◌∷◌, arith, Clock, ok, trim_space,
}
use go_ddd_template.Base.Dict.{lookup}
use go_ddd_template.Ordering.Errors.{wrapped, concurrency_conflict}
use go_ddd_template.Ordering.Order.{Order, OrderLine, confirmed}
use go_ddd_template.Ordering.Store.{OrderRow, order_row_to_order, order_to_order_row}
use go_ddd_template.Ordering.Store.RoundTrip.{IsOrder, order_row_to_order-to_order_row}
use go_ddd_template.Ordering.Store.Unit.{World, Tx, within, memory_unit, save_order, next_version}
use go_ddd_template.Ordering.Application.{Deps, run_command}
use go_ddd_template.Ordering.Application.Place.{Made, PlaceOrderInput, place_command, place_order}
use go_ddd_template.Ordering.Application.Compensation.{IsCompensated, place_order_compensates}
use go_ddd_template.Ordering.Application.Cancel.{Attempts}
use go_ddd_template.Ordering.Application.Cancelled.{attempt, order_cancelled_message, cancel_stages}

abbrev noon : Clock
noon i = 100

abbrev pub one_bolt : OrderLine
one_bolt = record {
  sku = record { value = "BOLT" };
  quantity = record { value = 1 };
  unit_price = record { amount = 120; currency = "JPY" };
}

abbrev pub stored : Order
stored = record {
  id = record { value = "order-1" };
  customer = record { value = "alice" };
  lines = one_bolt ∷ [];
  status = confirmed;
  total = record { amount = 120; currency = "JPY" };
  reservation_ref = record { value = "order-1" };
  version = 1;
  events = [];
}

pub stored-IsOrder : IsOrder stored
unfolding trim_space
stored-IsOrder = record {
  id_name = (refl, refl);
  customer_name = (refl, refl);
  ref_name = (refl, refl);
  total_money = (refl, (refl, refl));
  all_lines = (((refl, refl), refl, (refl, (refl, refl))), tt);
  known = refl;
}

order_row_to_order-to_order_row_example :
    order_row_to_order (order_to_order_row stored 1)
    ≡ ok (record stored { version = 1; events = [] })
order_row_to_order-to_order_row_example = order_row_to_order-to_order_row stored 1 stored-IsOrder

abbrev row : OrderRow
row = order_to_order_row stored 1

-- The outside is the list of references that the inventory holds.
abbrev shop : OrderRow → World (List String)
shop r = record {
  orders = ("order-1", r) ∷ [];
  shipments = [];
  stores = record { queue = []; log = [] };
  outside = [];
}

abbrev tries : Attempts
tries n = record { clock = noon; ids = λ i. "m-1" }

cancel_stages_example :
    ((attempt none stored.id "trace" tries (shop row)).1 ≡ none)
    × ((attempt none stored.id "trace" tries (shop row)).0.1.staged_msgs
        ≡ order_cancelled_message none stored.id "trace" tries (shop row) stored ∷ [])
    × ((attempt none stored.id "trace" tries (shop row)).0.1.staged_orders
        ≡ ("order-1", record row { status = "cancelled"; version = 2 }) ∷ [])
unfolding trim_space lookup order_to_order_row
cancel_stages_example =
    cancel_stages none stored.id "trace" tries (shop row) row stored refl refl refl (omega arith)
      (order_row_to_order-to_order_row stored 1 stored-IsOrder)

-- One attempt; the reserver writes down the references that are held.
abbrev shop_deps : Deps (Tx (List String)) (World (List String))
shop_deps = record {
  exec = record { max_attempts = 1; base_backoff = 0 };
  work = memory_unit none;
  reserver = record {
    reserve = λ ref lines w. (record w { outside = ref ∷ w.outside }, none);
    release = λ ref w. (record w { outside = keep_if (λ k. not (str_eq k ref)) w.outside }, none);
  };
  dispatch = λ events w. w;
  timer = λ d w. (w, none);
}

abbrev made : Made
made = record { clock = noon; order_id = "order-1"; message_id = "m-1"; trace_id = "" }

abbrev wish : PlaceOrderInput
wish = record {
  customer_id = "bob";
  lines = record { sku = "BOLT"; quantity = 1; unit_price_amount = 120; currency = "JPY" } ∷ [];
}

-- The order's identifier is taken: storing it fails after the stock was reserved.
place_order_compensates_example :
    IsCompensated shop_deps made wish
      (shop row)
      (wrapped concurrency_conflict)
      (place_order shop_deps made wish (shop row)).0
unfolding place_order trim_space run_command within place_command save_order next_version lookup
place_order_compensates_example =
    place_order_compensates shop_deps made wish (shop row) (wrapped concurrency_conflict) refl
