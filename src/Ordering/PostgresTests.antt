-- ===== src/Ordering/PostgresTests.antt =====
-- Runs of the theorems on the ordering context's stores on PostgreSQL.
use go_ddd_template.Base.{◌≡◌, refl, inl, none, [], arith, ok, trim_space}
use go_ddd_template.Ordering.Order.{Order, cancelled}
use go_ddd_template.Ordering.Shipment.{Shipment, shipped}
use go_ddd_template.Ordering.Postgres.Orders as Orders
use go_ddd_template.Ordering.Postgres.Shipments as Shipments
use go_ddd_template.Ordering.Postgres.Tables.{Tables, tables, find_order, find_shipment, of_order}
use go_ddd_template.Ordering.Postgres.OrderSaveLoad.{load-save_new}
use go_ddd_template.Ordering.Postgres.OrderUpdate.{load-save_loaded}
use go_ddd_template.Ordering.Postgres.ShipmentSaveLoad.{IsStorable, next, load-save}
use go_ddd_template.Ordering.Store.RoundTrip.{IsOrder}
use go_ddd_template.Ordering.StoreTests.{stored, stored-IsOrder}

abbrev nothing : Tables
nothing = record { orders = []; lines = []; shipments = [] }

abbrev fresh : Order
fresh = record stored { version = 0 }

fresh-IsOrder : IsOrder fresh
fresh-IsOrder = record {
  id_name = stored-IsOrder.id_name;
  customer_name = stored-IsOrder.customer_name;
  ref_name = stored-IsOrder.ref_name;
  total_money = stored-IsOrder.total_money;
  all_lines = stored-IsOrder.all_lines;
  known = refl;
}

load-save_new_example :
    ((Orders.save tables fresh nothing).1 ≡ stored)
    × ((Orders.save tables fresh nothing).2 ≡ none)
    × (Orders.load tables fresh.id (Orders.save tables fresh nothing).0 ≡ ok stored)
unfolding find_order of_order
load-save_new_example =
    load-save_new fresh nothing fresh-IsOrder (omega arith, tt) (omega arith) refl refl refl

-- The order that was loaded, cancelled.
abbrev gone : Order
gone = record stored { status = cancelled }

abbrev kept : Tables
kept = (Orders.save tables fresh nothing).0

load-save_loaded_example :
    ((Orders.save tables gone kept).1 ≡ record gone { version = 2 })
    × ((Orders.save tables gone kept).2 ≡ none)
    × (Orders.load tables gone.id (Orders.save tables gone kept).0
        ≡ ok (record gone { version = 2 }))
load-save_loaded_example =
    load-save_loaded gone stored kept refl (omega arith) (omega arith) refl load-save_new_example.2

abbrev sent : Shipment
sent = record {
  id = record { value = "ship-1" };
  order_id = record { value = "order-1" };
  status = shipped;
  tracking_number = record { value = "T1" };
  version = 0;
  events = [];
}

sent-IsStorable : IsStorable sent
unfolding trim_space
sent-IsStorable = record {
  id_name = (refl, refl);
  order_name = (refl, refl);
  tracked = (refl, refl);
  version_small = omega arith;
}

load-save_example :
    ((Shipments.save tables sent nothing).1 ≡ next sent)
    × ((Shipments.save tables sent nothing).2 ≡ none)
    × (Shipments.load tables sent.id (Shipments.save tables sent nothing).0
        ≡ ok (record (next sent) { events = [] }))
unfolding find_shipment
load-save_example = load-save sent nothing sent-IsStorable (inl (refl, refl))
