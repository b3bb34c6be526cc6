-- ===== src/Inventory/Postgres/Conflict.antt =====
-- When Save on PostgreSQL is refused with the concurrency conflict: stock_store.go of
-- adapter/outbound/postgres on the tables.
use go_ddd_template.Base.{
  ℕ, ◌<◌, ◌^◌, Bool, false, not, some, List, [], ◌∷◌, ◌≡◌, refl, subst, ◌==◌, str_eq, eq_iff, arith,
  ok, err, Result, if◌then◌else◌, inl, inr, Bool-cases,
}
use go_ddd_template.Shared.Postgres.{DbError, no_rows}
use go_ddd_template.Inventory.Errors.{wrapped, concurrency_conflict}
use go_ddd_template.Inventory.StockItem.{StockItem}
use go_ddd_template.Inventory.Postgres.{StockItemRow, UpdateStockItemParams}
use go_ddd_template.Inventory.Postgres.Save.{save_one, inserted_row, update_params}
use go_ddd_template.Inventory.Postgres.Tables.{
  Database, Tables, tables, find_sku, has_key, insert_item, update_item, update_rows,
}

-- The unique key of the column.
abbrev pub DistinctSkus : List StockItemRow → Type 0
DistinctSkus [] = Unit
DistinctSkus (r ∷ rows) = (find_sku r.sku rows ≡ err no_rows) × DistinctSkus rows

abbrev has_version : ℕ → Result DbError StockItemRow → Bool
has_version version (ok r) = r.version == version
has_version version (err e) = false

-- Whether the tables are as the aggregate was loaded from: for a new one, no row has its keys, and
-- else the row of its SKU has its version.
abbrev pub is_current : StockItem → Tables → Bool
is_current s t =
    if s.version == 0
    then not (has_key (inserted_row s) t.items)
    else has_version s.version (find_sku s.sku.value t.items)

update_rows_missing :
    (p : UpdateStockItemParams) (rows : List StockItemRow)
    → find_sku p.sku rows ≡ err no_rows
    → (update_rows p rows).1 ≡ 0
unfolding find_sku update_rows
update_rows_missing p [] h = refl
update_rows_missing p (x ∷ rows) h = ground (arith, h, update_rows_missing p rows)

-- Without a row that has the SKU and the version, nothing is updated.
update_rows_stale :
    (p : UpdateStockItemParams) (rows : List StockItemRow)
    → DistinctSkus rows
    → has_version p.expected (find_sku p.sku rows) ≡ false
    → (update_rows p rows).1 ≡ 0
unfolding find_sku update_rows
update_rows_stale p [] d h = refl
update_rows_stale p (x ∷ rows) d h = elim (Bool-cases (str_eq x.sku p.sku)) [
  | inl same ↦
      let e = (eq_iff x.sku p.sku).0 same in
      ground (
        arith,
        same,
        h,
        update_rows_missing p rows (subst (λ k. find_sku k rows ≡ err no_rows) e d.0),
      )
  | inr differs ↦ ground (arith, differs, h, update_rows_stale p rows d.1)
]

-- Let the SKUs of the table be distinct, and the version and the free stock of an item below 2 ^
-- 31. If the item is new and a row has one of its keys, or is not new and the row of its SKU has
-- another version or is gone, Save fails with the concurrency conflict and leaves the tables and
-- the item as they were.
pub save_one_stale :
    (db : Database) (s : StockItem) (t : Tables)
    → DistinctSkus t.items
    → s.version < 2 ^ 31
    → s.available.value < 2 ^ 31
    → is_current s t ≡ false
    → save_one (tables db) s t ≡ (t, s, some (wrapped concurrency_conflict))
unfolding save_one insert_item update_item
save_one_stale db s t d v a h = ground (arith, h, update_rows_stale (update_params s) t.items d)
