-- ===== src/Inventory/Store/Unit.antt =====
-- Save and the unit of work: stock_store.go and uow.go of adapter/outbound/memory. An aggregate that
-- Save goes through has its new version on leaving it. Within is one step over a world that no other
-- goroutine changes between its loads, its Saves and its commit; the program holds no lock over all of
-- them, and Versions is about a Save that comes before the commit of another transaction.
use go_ddd_template.Base.{
  Option, none, some, List, [], ◌∷◌, ◌++◌, GoInt, add_int, ◌==◌, Result, ok, err, if◌then◌else◌,
}
use go_ddd_template.Base.Dict.{Dict, lookup}
use go_ddd_template.Shared.Rows.{Staging, stage, apply_group}
use go_ddd_template.Shared.Outbox.{Message}
use go_ddd_template.Shared.Outbox.Memory.{Stores, commit_staged}
use go_ddd_template.Inventory.Errors.{Error, wrapped, concurrency_conflict, other_error}
use go_ddd_template.Inventory.StockItem.{StockItem, mark_persisted}
use go_ddd_template.Inventory.Ports.{StockStore, MessagePublisher, UnitOfWork}
use go_ddd_template.Inventory.Store.{
  StockRow, stock_item_to_row, load_stock_item, load_stock_items_by_sku,
  load_stock_items_by_reservation, load_expired_pending_stock_items,
}

-- The check of an aggregate's version against the committed row, and the version to write.
unfoldable pub next_version : Dict StockRow → StockItem → Result Error GoInt
unfolding lookup
next_version rows item =
    if item.version == 0
    then elim (lookup item.sku.value rows) [
      | some existing ↦ err (wrapped concurrency_conflict)
      | none ↦ ok 1
    ]
    else elim (lookup item.sku.value rows) [
      | none ↦ err (wrapped concurrency_conflict)
      | some existing ↦
          if existing.version == item.version
          then ok (add_int item.version 1)
          else err (wrapped concurrency_conflict)
    ]

-- The aggregates, what is staged, and the error.
unfoldable pub save :
    Dict StockRow
    → List StockItem
    → Staging StockRow
    → List StockItem × Staging StockRow × Option Error
save rows [] staged = ([], staged, none)
save rows (item ∷ items) staged = elim (next_version rows item) [
  | err e ↦ (item ∷ items, staged, some e)
  | ok next ↦
      let (items', staged', failure) =
        save rows items (stage item.sku.value (stock_item_to_row item next) staged) in
      (mark_persisted next item ∷ items', staged', failure)
]

-- What a unit of work commits to.
pub record World : Type 0 where
  pub rows : Dict StockRow
  pub stores : Stores

-- A transaction: the committed state, which it reads, and what it has staged.
pub record Tx : Type 0 where
  pub world : World
  pub staged : Staging StockRow
  pub staged_msgs : List Message

abbrev pub begin : World → Tx
begin w = record { world = w; staged = []; staged_msgs = [] }

unfoldable pub commit : Tx → World
unfolding apply_group commit_staged
commit tx = record {
  rows = apply_group tx.staged tx.world.rows;
  stores = commit_staged tx.staged_msgs tx.world.stores;
}

-- The end of Within: an error throws the staging away.
abbrev pub finish : {V : Type 0} → (V × Tx) × Option Error → (V × World) × Option Error
finish ((v, tx), some e) = ((v, tx.world), some e)
finish ((v, tx), none) = ((v, commit tx), none)

unfoldable pub within :
    {V : Type 0} → (V × Tx → (V × Tx) × Option Error) → V × World → (V × World) × Option Error
unfolding commit
within fn (v, w) = finish (fn (v, begin w))

-- stockStore: the methods inside a transaction.
abbrev pub tx_stock : StockStore Tx
tx_stock = record {
  load = λ sku tx. (tx, load_stock_item tx.world.rows sku);
  load_many = λ skus tx. (tx, load_stock_items_by_sku tx.world.rows skus []);
  load_by_reservation = λ ref tx. (tx, load_stock_items_by_reservation tx.world.rows ref []);
  load_expired_pending =
      λ now limit tx. (tx, load_expired_pending_stock_items tx.world.rows now limit []);
  save = λ items tx.
      let (items', staged', failure) = save tx.world.rows items tx.staged in
      (record tx { staged = staged' }, items', failure);
}

abbrev pub tx_outbox : MessagePublisher Tx
tx_outbox m tx = (record tx { staged_msgs = tx.staged_msgs ++ m ∷ [] }, none)

abbrev pub memory_unit : UnitOfWork Tx World
memory_unit = record { repos = record { stock = tx_stock; outbox = tx_outbox }; within = within }

-- readStockStore: the methods outside a transaction; Save is refused.
abbrev pub read_stock : StockStore World
read_stock = record {
  load = λ sku w. (w, load_stock_item w.rows sku);
  load_many = λ skus w. (w, load_stock_items_by_sku w.rows skus []);
  load_by_reservation = λ ref w. (w, load_stock_items_by_reservation w.rows ref []);
  load_expired_pending = λ now limit w. (w, load_expired_pending_stock_items w.rows now limit []);
  save = λ items w. (w, items, some other_error);
}
