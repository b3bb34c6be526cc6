-- ===== src/Inventory/Postgres/Truncation.antt =====
-- What int32(…) in stock_store.go of adapter/outbound/postgres does to stock that the column cannot
-- hold.
use go_ddd_template.Base.{◌<◌, ◌≤◌, ◌%◌, ◌^◌, false, none, [], ◌≡◌, arith, ok, subst, append-nil}
use go_ddd_template.Inventory.Values.{new_sku, new_quantity}
use go_ddd_template.Inventory.StockItem.{
  StockItem, reservations_of, mark_persisted, reconstitute_stock_item,
}
use go_ddd_template.Inventory.Store.RoundTrip.{IsName}
use go_ddd_template.Inventory.Postgres.{load}
use go_ddd_template.Inventory.Postgres.Save.{save_one, inserted_row}
use go_ddd_template.Inventory.Postgres.Tables.{
  Database, IsArrangement, Tables, tables, of_item, has_key, insert_item,
}
use go_ddd_template.Inventory.Postgres.Reading.{other_items, scanned_none}
use go_ddd_template.Inventory.Postgres.SaveLoad.{find_sku_inserted}

-- Save of a new item without reservations whose free stock is 2 ^ 32 or more, and below 2 ^ 31
-- modulo 2 ^ 32, and whose keys no row has, succeeds; Load then, in whatever order rows are
-- visited, gives the item with its stock modulo 2 ^ 32.
pub load-save_one_truncated :
    (db : Database) (s : StockItem) (t : Tables)
    → IsArrangement db.order
    → s.version ≡ 0
    → s.reservations ≡ []
    → IsName s.sku.value
    → has_key (inserted_row s) t.items ≡ false
    → 2 ^ 32 ≤ s.available.value
    → s.available.value % 2 ^ 32 < 2 ^ 31
    → let out = save_one (tables db) s t in
      (out.2 ≡ none)
      × (load (tables db) s.sku out.0
          ≡ ok (record s {
            available = record { value = s.available.value % 2 ^ 32 };
            version = 1;
            events = [];
          }))
unfolding save_one insert_item load new_sku new_quantity reconstitute_stock_item reservations_of
    mark_persisted
load-save_one_truncated db s t o z n name f big small =
    let none_left : of_item s.id (db.order (other_items s.id t.reservations)) ≡ [] =
      subst (λ rows. of_item s.id (db.order rows) ≡ [])
        (append-nil (other_items s.id t.reservations)) (scanned_none db s.id t.reservations o) in
    (
      ground (arith, z, n, f, small),
      ground (
        arith,
        z,
        n,
        f,
        small,
        name.0,
        name.1,
        find_sku_inserted (inserted_row s) t.items f,
        none_left,
      ),
    )
