-- ===== src/Ordering/Store/Unit.antt =====
-- Loads, Save and the unit of work: order_store.go, shipment_store.go and uow.go of
-- adapter/outbound/memory. `W` is the state that the synchronous sink of the development server
-- reaches. The two groups are committed in their order, and the messages with them.
-- Within is one step over a world that no other goroutine changes between its loads, its Saves and its
-- commit; the program holds no lock over all of them.
use go_ddd_template.Base.{
  Option, none, some, List, [], ◌∷◌, ◌++◌, GoInt, add_int, ◌==◌, Result, ok, err, if◌then◌else◌,
}
use go_ddd_template.Base.Dict.{Dict, lookup}
use go_ddd_template.Shared.Rows.{Staging, stage, apply_group}
use go_ddd_template.Shared.Outbox.{Message, Publisher}
use go_ddd_template.Shared.Outbox.Memory.{Stores, commit_staged, mark_published}
use go_ddd_template.Ordering.Errors.{
  Error, sentinel, wrapped, concurrency_conflict, other_error, order_not_found, shipment_not_found,
}
use go_ddd_template.Ordering.Values.{OrderId, ShipmentId}
use go_ddd_template.Ordering.Order.{Order}
use go_ddd_template.Ordering.Order as Orders
use go_ddd_template.Ordering.Shipment.{Shipment}
use go_ddd_template.Ordering.Shipment as Shipments
use go_ddd_template.Ordering.Ports.{OrderStore, ShipmentStore, MessagePublisher, UnitOfWork}
use go_ddd_template.Ordering.Store.{
  OrderRow, ShipmentRow, order_row_to_order, order_to_order_row, shipment_row_to_shipment,
  shipment_to_shipment_row,
}

unfoldable pub load_order : Dict OrderRow → OrderId → Result Error Order
load_order rows id = elim (lookup id.value rows) [
  | none ↦ err (wrapped (sentinel order_not_found))
  | some r ↦ order_row_to_order r
]

unfoldable pub load_shipment : Dict ShipmentRow → ShipmentId → Result Error Shipment
load_shipment rows id = elim (lookup id.value rows) [
  | none ↦ err (wrapped (sentinel shipment_not_found))
  | some r ↦ shipment_row_to_shipment r
]

-- The check of a version against that of the committed row, if there is one, and the version to
-- write. Both Saves have it.
unfoldable pub next_version : Option GoInt → GoInt → Result Error GoInt
next_version existing version =
    if version == 0
    then elim existing [ some v ↦ err (wrapped concurrency_conflict) | none ↦ ok 1 ]
    else elim existing [
      | none ↦ err (wrapped concurrency_conflict)
      | some v ↦ if v == version then ok (add_int version 1) else err (wrapped concurrency_conflict)
    ]

abbrev order_version : Option OrderRow → Option GoInt
order_version none = none
order_version (some r) = some r.version

abbrev shipment_version : Option ShipmentRow → Option GoInt
shipment_version none = none
shipment_version (some r) = some r.version

unfoldable pub save_order :
    Dict OrderRow → Order → Staging OrderRow → Order × Staging OrderRow × Option Error
save_order rows o staged = elim (next_version (order_version (lookup o.id.value rows)) o.version) [
  | err e ↦ (o, staged, some e)
  | ok next ↦
      (Orders.mark_persisted next o, stage o.id.value (order_to_order_row o next) staged, none)
]

unfoldable pub save_shipment :
    Dict ShipmentRow
    → Shipment
    → Staging ShipmentRow
    → Shipment × Staging ShipmentRow × Option Error
save_shipment rows s staged =
    elim (next_version (shipment_version (lookup s.id.value rows)) s.version) [
      | err e ↦ (s, staged, some e)
      | ok next ↦ (
        Shipments.mark_persisted next s,
        stage s.id.value (shipment_to_shipment_row s next) staged,
        none,
      )
    ]

pub record World (W : Type 0) : Type 0 where
  pub orders : Dict OrderRow
  pub shipments : Dict ShipmentRow
  pub stores : Stores
  pub outside : W

-- A transaction: the committed state, which it reads, and what it has staged.
pub record Tx (W : Type 0) : Type 0 where
  pub world : World W
  pub staged_orders : Staging OrderRow
  pub staged_shipments : Staging ShipmentRow
  pub staged_msgs : List Message

module _ {W : Type 0} (sink : Option (Publisher Error W)) where
  abbrev pub begin : World W → Tx W
  begin w = record { world = w; staged_orders = []; staged_shipments = []; staged_msgs = [] }

  unfoldable pub commit : Tx W → World W
  commit tx = record {
    orders = apply_group tx.staged_orders tx.world.orders;
    shipments = apply_group tx.staged_shipments tx.world.shipments;
    stores = commit_staged tx.staged_msgs tx.world.stores;
    outside = tx.world.outside;
  }

  -- The loop of deliverSync: what the sink takes leaves the queue.
  unfoldable pub deliver_all : Publisher Error W → List Message → World W → World W
  deliver_all publish [] w = w
  deliver_all publish (m ∷ msgs) w =
      let (outside', failure) = publish m w.outside in
      elim failure [
        | some e ↦ deliver_all publish msgs (record w { outside = outside' })
        | none ↦
            deliver_all publish msgs
              (record w { outside = outside'; stores = mark_published (m.id ∷ []) w.stores })
      ]

  unfoldable pub deliver_sync : List Message → World W → World W
  deliver_sync msgs w = elim sink [ none ↦ w | some publish ↦ deliver_all publish msgs w ]

  -- The end of Within: an error throws the staging away.
  abbrev pub finish : {V : Type 0} → (V × Tx W) × Option Error → (V × World W) × Option Error
  finish ((v, tx), some e) = ((v, tx.world), some e)
  finish ((v, tx), none) = ((v, deliver_sync tx.staged_msgs (commit tx)), none)

  unfoldable pub within :
      {V : Type 0}
      → (V × Tx W → (V × Tx W) × Option Error)
      → V × World W
      → (V × World W) × Option Error
  within fn (v, w) = finish (fn (v, begin w))

  abbrev pub tx_orders : OrderStore (Tx W)
  tx_orders = record {
    load = λ id tx. (tx, load_order tx.world.orders id);
    save = λ o tx.
        let (o', staged, failure) = save_order tx.world.orders o tx.staged_orders in
        (record tx { staged_orders = staged }, o', failure);
  }

  abbrev pub tx_shipments : ShipmentStore (Tx W)
  tx_shipments = record {
    load = λ id tx. (tx, load_shipment tx.world.shipments id);
    save = λ s tx.
        let (s', staged, failure) = save_shipment tx.world.shipments s tx.staged_shipments in
        (record tx { staged_shipments = staged }, s', failure);
  }

  abbrev pub tx_outbox : MessagePublisher (Tx W)
  tx_outbox m tx = (record tx { staged_msgs = tx.staged_msgs ++ m ∷ [] }, none)

  abbrev pub memory_unit : UnitOfWork (Tx W) (World W)
  memory_unit = record {
    repos = record { orders = tx_orders; shipments = tx_shipments; outbox = tx_outbox };
    within = within;
  }

-- readOrderStore and readShipmentStore: the methods outside a transaction; Save is refused.
abbrev pub read_orders : {W : Type 0} → OrderStore (World W)
read_orders = record {
  load = λ id w. (w, load_order w.orders id);
  save = λ o w. (w, o, some other_error);
}

abbrev pub read_shipments : {W : Type 0} → ShipmentStore (World W)
read_shipments = record {
  load = λ id w. (w, load_shipment w.shipments id);
  save = λ s w. (w, s, some other_error);
}
