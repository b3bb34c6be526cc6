-- ===== src/Inventory/Postgres/SaveLoad.antt =====
-- Save, and then Load, on the tables: stock_store.go of adapter/outbound/postgres.
use go_ddd_template.Base.{
  ℕ, ◌<◌, ◌+◌, ◌^◌, String, false, none, List, [], ◌∷◌, ◌++◌, All, ◌≡◌, refl, eq_iff, eq_refl,
  arith, subst, sym, Result, ok, err, GoInt,
}
use mathlib.Core.Option
use go_ddd_template.Base.Dict.{lookup}
use go_ddd_template.Inventory.Errors.{Error}
use go_ddd_template.Inventory.Values.{new_sku, new_quantity}
use go_ddd_template.Inventory.StockItem.{
  StockItem, mark_persisted, reconstitute_stock_item, index_reservations,
}
use go_ddd_template.Inventory.Reservation.{Reservation}
use go_ddd_template.Inventory.StockItem.Invariant.{IsValid, stock}
use go_ddd_template.Inventory.Store.RoundTrip.{IsName, IsNamed}
use go_ddd_template.Inventory.Postgres.{
  StockItemRow, UpdateStockItemParams, reservations_of_rows, reconstitute, load, save_reservations,
}
use go_ddd_template.Inventory.Postgres.Save.{save_one, inserted_row, update_params}
use go_ddd_template.Inventory.Postgres.Tables.{
  Database, IsArrangement, Tables, tables, find_sku, has_key, insert_item, update_item, update_rows,
}
use go_ddd_template.Inventory.Postgres.RoundTrip.{
  IsKept, in_column, rows_of, insert_reservations-rows_of, kept-NoKeys,
}
use go_ddd_template.Inventory.Postgres.Reading.{other_items, scanned, scanned_read}

-- A valid aggregate that the columns can hold: its names are as NewSKU and NewReservationRef make
-- them, and its stock and its next version are below 2 ^ 31.
pub record IsStorable (s : StockItem) : Type 0 where
  pub valid : IsValid s
  pub sku_name : IsName s.sku.value
  pub names : All IsNamed s.reservations
  pub kept : All IsKept s.reservations
  pub small : stock s < 2 ^ 31
  pub version_small : s.version + 1 < 2 ^ 31

-- The tables after saveReservations.
abbrev pub rewritten : Database → StockItem → Tables → Tables
rewritten db s t = record t {
  reservations = other_items s.id t.reservations ++ rows_of db s.id s.reservations;
}

save_reservations_lem :
    (db : Database) (s : StockItem) (version : GoInt) (t : Tables)
    → IsStorable s
    → save_reservations (tables db) (mark_persisted version s) t ≡ (rewritten db s t, none)
unfolding save_reservations mark_persisted
save_reservations_lem db s version t st =
    let t' : Tables = record t { reservations = other_items s.id t.reservations } in
    insert_reservations-rows_of db s.id s.reservations t' st.valid.distinct st.valid.held st.kept
      (omega (arith, st.small)) (kept-NoKeys s.id s.reservations t.reservations)

-- What Load gives: the fields of the aggregate, no events, and under every key its reservation, with the
-- part of its time that the column keeps.
abbrev pub IsReadBack : Database → StockItem → Result Error StockItem → Type 0
IsReadBack db s (err e) = ⊥
IsReadBack db s (ok x) =
    (x.id ≡ s.id)
    × (x.sku ≡ s.sku)
    × (x.available ≡ s.available)
    × (x.version ≡ s.version)
    × (x.events ≡ [])
    × ((k : String)
        → lookup k x.reservations ≡ Option.map (in_column db.column_time) (lookup k s.reservations))

-- The row of an aggregate with a version.
abbrev item_row : StockItem → ℕ → StockItemRow
item_row s version = record {
  id = s.id;
  sku = s.sku.value;
  available = s.available.value;
  version = version;
}

reconstitute_rows :
    (db : Database) (s : StockItem) (version : ℕ) (t : Tables) (rs : List Reservation)
    → IsStorable s
    → version < 2 ^ 31
    → reservations_of_rows (scanned db s.id s.reservations t.reservations) [] ≡ ok rs
    → reconstitute (tables db) (item_row s version) (rewritten db s t)
      ≡ ok (record s { version = version; events = []; reservations = index_reservations [] rs })
unfolding reconstitute new_sku new_quantity reconstitute_stock_item
reconstitute_rows db s version t rs st b read =
    ground (arith, st.small, st.sku_name.0, st.sku_name.1, read)

-- An aggregate is made again from its row and the rows of its reservations.
reconstitute_lem :
    (db : Database) (s : StockItem) (version : ℕ) (t : Tables)
    → IsArrangement db.order
    → IsStorable s
    → version < 2 ^ 31
    → IsReadBack db
        (record s { version = version })
        (reconstitute (tables db) (item_row s version) (rewritten db s t))
reconstitute_lem db s version t o st b =
    let (rs, read, entries) =
      scanned_read db s.id s.reservations t.reservations o st.valid.distinct st.valid.held st.names
        st.kept (omega (arith, st.small)) in
    subst (IsReadBack db (record s { version = version }))
      (sym (reconstitute_rows db s version t rs st b read)) (refl, refl, refl, refl, refl, entries)

pub find_sku_inserted :
    (row : StockItemRow) (rows : List StockItemRow)
    → has_key row rows ≡ false
    → find_sku row.sku (rows ++ row ∷ []) ≡ ok row
unfolding find_sku has_key
find_sku_inserted row [] h = ground (arith, eq_refl row.sku)
find_sku_inserted row (r ∷ rows) h = ground (arith, find_sku_inserted row rows)

find_sku_sku :
    (sku : String) (r : StockItemRow) (rows : List StockItemRow)
    → find_sku sku rows ≡ ok r
    → r.sku ≡ sku
unfolding find_sku
find_sku_sku sku r [] h = absurd (ground (arith, h))
find_sku_sku sku r (x ∷ rows) h = ground (arith, h, eq_iff x.sku sku, find_sku_sku sku r rows)

-- The row of a SKU that has the expected version is updated.
find_sku_updated :
    (p : UpdateStockItemParams) (r : StockItemRow) (rows : List StockItemRow)
    → find_sku p.sku rows ≡ ok r
    → r.version ≡ p.expected
    → (find_sku p.sku (update_rows p rows).0
        ≡ ok (record r { available = p.available; version = p.version }))
      × (0 < (update_rows p rows).1)
unfolding find_sku update_rows
find_sku_updated p r [] h e = absurd (ground (arith, h))
find_sku_updated p r (x ∷ rows) h e = ground (arith, h, e, find_sku_updated p r rows)

-- The aggregate as Save leaves it.
abbrev pub next : StockItem → StockItem
next s = record s { version = s.version + 1 }

-- A new aggregate, whose keys no row has.
save_one_new :
    (db : Database) (s : StockItem) (t : Tables)
    → IsStorable s
    → s.version ≡ 0
    → has_key (inserted_row s) t.items ≡ false
    → save_one (tables db) s t
      ≡ (rewritten db s (record t { items = t.items ++ inserted_row s ∷ [] }), next s, none)
unfolding save_one insert_item mark_persisted
save_one_new db s t st z f =
    let t' : Tables = record t { items = t.items ++ inserted_row s ∷ [] } in
    ground (arith, z, f, st.small, save_reservations_lem db s 1 t' st)

-- The row of the SKU is the aggregate's, and has the version that the aggregate was loaded with.
abbrev pub IsLoaded : StockItem → StockItemRow → Tables → Type 0
IsLoaded s r t =
    (0 < s.version)
    × (find_sku s.sku.value t.items ≡ ok r)
    × (r.id ≡ s.id)
    × (r.version ≡ s.version)

update_item_loaded :
    (s : StockItem) (r : StockItemRow) (t : Tables)
    → IsStorable s
    → IsLoaded s r t
    → let out = update_rows (update_params s) t.items in
      (update_item (update_params s) t ≡ (record t { items = out.0 }, ok out.1)) × (0 < out.1)
unfolding update_item
update_item_loaded s r t st l =
    let found = find_sku_updated (update_params s) r t.items l.1 (ground (arith, l.3, st.small)) in
    (ground (arith, found.1, st.small, l.0), found.1)

save_one_loaded :
    (db : Database) (s : StockItem) (r : StockItemRow) (t : Tables)
    → IsStorable s
    → IsLoaded s r t
    → save_one (tables db) s t ≡ (
      rewritten db s (record t { items = (update_rows (update_params s) t.items).0 }),
      next s,
      none,
    )
unfolding save_one mark_persisted
save_one_loaded db s r t st l =
    let t' : Tables = record t { items = (update_rows (update_params s) t.items).0 } in
    ground
      (arith, l.0, update_item_loaded s r t st l, save_reservations_lem db s (s.version + 1) t' st)

-- What Load gives for the SKU once Save has written the row.
load_rewritten :
    (db : Database) (s : StockItem) (t : Tables)
    → IsArrangement db.order
    → IsStorable s
    → find_sku s.sku.value t.items ≡ ok (item_row s (s.version + 1))
    → IsReadBack db (next s) (load (tables db) s.sku (rewritten db s t))
unfolding load
load_rewritten db s t o st h =
    let row = item_row s (s.version + 1) in
    let found : load (tables db) s.sku (rewritten db s t)
        ≡ reconstitute (tables db) row (rewritten db s t) =
      ground (arith, h) in
    subst (IsReadBack db (next s)) (sym found)
      (reconstitute_lem db s (s.version + 1) t o st st.version_small)

-- Save of a new item that is valid and storable (its names trimmed, its confirmed reservations
-- without a time, its stock and next version below 2 ^ 31), and whose keys no row has, succeeds
-- with the next version, and Load of its SKU from the tables that it leaves, in whatever order
-- their reservations are visited, gives the item back: its identifier, SKU, stock and version, no
-- events, and under every reference the same reservation, whose time is what its column keeps of
-- it, and the zero time for the zero time.
pub load-save_one_new :
    (db : Database) (s : StockItem) (t : Tables)
    → IsArrangement db.order
    → IsStorable s
    → s.version ≡ 0
    → has_key (inserted_row s) t.items ≡ false
    → let out = save_one (tables db) s t in
      (out.2 ≡ none) × (out.1 ≡ next s) × IsReadBack db (next s) (load (tables db) s.sku out.0)
load-save_one_new db s t o st z f =
    let items' = t.items ++ inserted_row s ∷ [] in
    let t' : Tables = record t { items = items' } in
    let found = find_sku_inserted (inserted_row s) t.items f in
    let read = load_rewritten db s t' o st (ground (arith, found, z, st.small)) in
    rw (save_one_new db s t st z f) (refl, refl, read)

-- Save of an item that is valid and storable (its names trimmed, its confirmed reservations without
-- a time, its stock and next version below 2 ^ 31), and whose row has the version that it was
-- loaded with, succeeds with the next version, and Load of its SKU from the tables that it leaves,
-- in whatever order their reservations are visited, gives the item back: its identifier, SKU, stock
-- and version, no events, and under every reference the same reservation, whose time is what its
-- column keeps of it, and the zero time for the zero time.
pub load-save_one :
    (db : Database) (s : StockItem) (r : StockItemRow) (t : Tables)
    → IsArrangement db.order
    → IsStorable s
    → IsLoaded s r t
    → let out = save_one (tables db) s t in
      (out.2 ≡ none) × (out.1 ≡ next s) × IsReadBack db (next s) (load (tables db) s.sku out.0)
load-save_one db s r t o st l =
    let t' : Tables = record t { items = (update_rows (update_params s) t.items).0 } in
    let found = find_sku_updated (update_params s) r t.items l.1 (ground (arith, l.3, st.small)) in
    let sku = find_sku_sku s.sku.value r t.items l.1 in
    let read = load_rewritten db s t' o st (ground (arith, found.0, sku, l.2, st.small)) in
    rw (save_one_loaded db s r t st l) (refl, refl, read)
