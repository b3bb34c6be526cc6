-- ===== src/Inventory/Postgres/Save.antt =====
-- Save and the unit of work on PostgreSQL: stock_store.go and uow.go of adapter/outbound/postgres. An
-- aggregate that Save goes through has its new version on leaving it.
use go_ddd_template.Base.{
  String, Option, none, some, List, [], ◌∷◌, GoInt, add_int, to_int32, ◌==◌, ok, err, if◌then◌else◌,
}
use go_ddd_template.Shared.Postgres.{unique_violation, Pool, within}
use go_ddd_template.Shared.Postgres.Outbox.{OutboxQueries, enqueue}
use go_ddd_template.Inventory.Errors.{Error, wrapped, concurrency_conflict}
use go_ddd_template.Inventory.StockItem.{StockItem, mark_persisted}
use go_ddd_template.Inventory.Ports.{StockStore, UnitOfWork}
use go_ddd_template.Inventory.Postgres.{
  StockItemRow, UpdateStockItemParams, StockQueries, failed, load, load_many, load_by_reservation,
  load_expired_pending, save_reservations,
}

abbrev pub inserted_row : StockItem → StockItemRow
inserted_row item = record {
  id = item.id;
  sku = item.sku.value;
  available = to_int32 item.available.value;
  version = 1;
}

abbrev pub update_params : StockItem → UpdateStockItemParams
update_params item = record {
  available = to_int32 item.available.value;
  version = to_int32 (add_int item.version 1);
  sku = item.sku.value;
  expected = to_int32 item.version;
}

module _ {T : Type 0} (q : StockQueries T) where
  -- The reservations of an aggregate that is marked as persisted.
  abbrev pub persisted : GoInt → StockItem → T → T × StockItem × Option Error
  persisted version item tx =
      let item' = mark_persisted version item in
      let (tx', failure) = save_reservations q item' tx in (tx', item', failure)

  unfoldable pub save_one : StockItem → T → T × StockItem × Option Error
  unfolding save_reservations mark_persisted
  save_one item tx =
      if item.version == 0
      then (let (tx', failure) = q.insert_stock_item (inserted_row item) tx in
          elim failure [
            | none ↦ persisted 1 item tx'
            | some unique_violation ↦ (tx', item, some (wrapped concurrency_conflict))
            | some e ↦ (tx', item, some (failed e))
          ])
      else (let (tx', out) = q.update_stock_item (update_params item) tx in
          elim out [
            | err e ↦ (tx', item, some (failed e))
            | ok rows ↦
                if rows == 0
                then (tx', item, some (wrapped concurrency_conflict))
                else persisted (add_int item.version 1) item tx'
          ])

  unfoldable pub save : List StockItem → T → T × List StockItem × Option Error
  unfolding save_one
  save [] tx = (tx, [], none)
  save (item ∷ items) tx =
      let (tx', item', failure) = save_one item tx in
      elim failure [
        | some e ↦ (tx', item' ∷ items, some e)
        | none ↦ let (tx'', items', later) = save items tx' in (tx'', item' ∷ items', later)
      ]

  abbrev pub stock_store : StockStore T
  stock_store = record {
    load = λ sku tx. (tx, load q sku tx);
    load_many = λ skus tx. (tx, load_many q skus [] tx);
    load_by_reservation = λ ref tx. (tx, load_by_reservation q ref tx);
    load_expired_pending = λ before limit tx. (tx, load_expired_pending q before limit tx);
    save = save;
  }

-- The unit of work over a pool, for one trace of the context.
abbrev pub postgres_unit :
    {T S : Type 0} → StockQueries T → OutboxQueries T → Pool Error T S → String → UnitOfWork T S
postgres_unit q out pool context_trace = record {
  repos = record { stock = stock_store q; outbox = enqueue out failed context_trace };
  within = within pool wrapped;
}
