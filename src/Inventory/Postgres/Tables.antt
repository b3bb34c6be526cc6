-- ===== src/Inventory/Postgres/Tables.antt =====
-- The tables of one transaction as lists of rows, with what contexts/inventory/db/queries.sql says of
-- them and the keys and checks of contexts/inventory/db/schema.sql. Other transactions are not in this
-- picture, and foreign keys are left out. The order in which a SELECT visits the reservations and the
-- part of a time that a timestamptz column keeps are the database's, arguments here.
use go_ddd_template.Base.{
  Elem, ℕ, String, Bool, false, not, ◌&&◌, ◌||◌, Option, none, some, List, [], ◌∷◌, ◌++◌, Time, ◌+◌,
  before, is_negative_int32, ◌==◌, str_eq, keep_if, take, Result, ok, err, if◌then◌else◌,
}
use mathlib.Core.Option
use go_ddd_template.Shared.Postgres.{DbError, no_rows, unique_violation, other_failure}
use go_ddd_template.Inventory.Postgres.{
  StockItemRow, StockReservationRow, UpdateStockItemParams, StockQueries,
}

pub record Tables : Type 0 where
  pub items : List StockItemRow
  pub reservations : List StockReservationRow

-- The database: the order in which a SELECT visits the rows, since no query on the reservations has an
-- ORDER BY, and what a timestamptz keeps of a time, in a column or as a parameter: it counts microseconds.
pub record Database : Type 0 where
  pub order : List StockReservationRow → List StockReservationRow
  pub column_time : Time → Time

-- A SELECT visits the rows that are there, each of them, and no other.
pub record IsArrangement (order : List StockReservationRow → List StockReservationRow)
    : Type 0 where
  pub kept :
      (r : StockReservationRow) (rows : List StockReservationRow)
      → Elem r rows
      → Elem r (order rows)
  pub only :
      (r : StockReservationRow) (rows : List StockReservationRow)
      → Elem r (order rows)
      → Elem r rows

-- SELECT … WHERE id = $1, and WHERE sku = $1: both columns are unique.
unfoldable pub find_sku : String → List StockItemRow → Result DbError StockItemRow
find_sku sku [] = err no_rows
find_sku sku (r ∷ rows) = if str_eq r.sku sku then ok r else find_sku sku rows

unfoldable pub find_id : String → List StockItemRow → Result DbError StockItemRow
find_id id [] = err no_rows
find_id id (r ∷ rows) = if str_eq r.id id then ok r else find_id id rows

-- A row with the identifier or the SKU.
unfoldable pub has_key : StockItemRow → List StockItemRow → Bool
has_key row [] = false
has_key row (r ∷ rows) = (str_eq r.id row.id || str_eq r.sku row.sku) || has_key row rows

-- CHECK (available >= 0), CHECK (version >= 1)
abbrev pub allowed_item : ℕ → ℕ → Bool
allowed_item available version =
    not (is_negative_int32 available) && not (is_negative_int32 version || version == 0)

unfoldable pub insert_item : StockItemRow → Tables → Tables × Option DbError
unfolding has_key
insert_item row t =
    if allowed_item row.available row.version
    then if has_key row t.items
      then (t, some unique_violation)
      else (record t { items = t.items ++ row ∷ [] }, none)
    else (t, some other_failure)

abbrev matches : UpdateStockItemParams → StockItemRow → Bool
matches p r = str_eq r.sku p.sku && r.version == p.expected

unfoldable pub update_rows : UpdateStockItemParams → List StockItemRow → List StockItemRow × ℕ
update_rows p [] = ([], 0)
update_rows p (r ∷ rows) =
    let (rows', n) = update_rows p rows in
    if matches p r
    then (record r { available = p.available; version = p.version } ∷ rows', n + 1)
    else (r ∷ rows', n)

unfoldable pub update_item : UpdateStockItemParams → Tables → Tables × Result DbError ℕ
unfolding update_rows
update_item p t =
    let (rows, n) = update_rows p t.items in
    if n == 0
    then (t, ok 0)
    else if allowed_item p.available p.version
    then (record t { items = rows }, ok n)
    else (t, err other_failure)

unfoldable pub of_item : String → List StockReservationRow → List StockReservationRow
of_item id rows = keep_if (λ r. str_eq r.stock_item_id id) rows

-- SELECT DISTINCT
unfoldable pub add_distinct : String → List String → List String
add_distinct id [] = id ∷ []
add_distinct id (j ∷ ids) = if str_eq j id then j ∷ ids else j ∷ add_distinct id ids

unfoldable pub ids_where : (StockReservationRow → Bool) → List StockReservationRow → List String
unfolding add_distinct
ids_where p [] = []
ids_where p (r ∷ rows) =
    let ids = ids_where p rows in if p r then add_distinct r.stock_item_id ids else ids

-- status = 'pending' AND expires_at IS NOT NULL AND expires_at < $1
abbrev pub is_due : Time → StockReservationRow → Bool
is_due now r =
    str_eq r.status "pending" && elim r.expires_at [ none ↦ false | some t ↦ before t now ]

abbrev pub same_key : StockReservationRow → StockReservationRow → Bool
same_key row r = str_eq r.stock_item_id row.stock_item_id && str_eq r.ref row.ref

abbrev pub has_reservation_key : StockReservationRow → List StockReservationRow → Bool
has_reservation_key row [] = false
has_reservation_key row (r ∷ rows) = same_key row r || has_reservation_key row rows

-- CHECK (quantity >= 1) and the check of the status.
abbrev pub allowed_reservation : StockReservationRow → Bool
allowed_reservation r =
    not (is_negative_int32 r.quantity || r.quantity == 0)
    && (str_eq r.status "pending" || str_eq r.status "confirmed")

-- The row as the columns keep it.
abbrev pub column : Database → StockReservationRow → StockReservationRow
column db row = record row { expires_at = Option.map db.column_time row.expires_at }

unfoldable pub insert_reservation :
    Database → StockReservationRow → Tables → Tables × Option DbError
insert_reservation db row t =
    if allowed_reservation row
    then if has_reservation_key row t.reservations
      then (t, some unique_violation)
      else (record t { reservations = t.reservations ++ column db row ∷ [] }, none)
    else (t, some other_failure)

abbrev pub delete_reservations : String → Tables → Tables
delete_reservations id t = record t {
  reservations = keep_if (λ r. not (str_eq r.stock_item_id id)) t.reservations;
}

abbrev pub tables : Database → StockQueries Tables
tables db = record {
  get_stock_item_by_sku = λ sku t. find_sku sku t.items;
  get_stock_item_by_id = λ id t. find_id id t.items;
  insert_stock_item = insert_item;
  update_stock_item = update_item;
  list_reservations_by_stock_item = λ id t. ok (of_item id (db.order t.reservations));
  list_stock_item_ids_by_reservation_ref =
      λ ref t. ok (ids_where (λ r. str_eq r.ref ref) (db.order t.reservations));
  list_expired_pending_stock_item_ids = λ now limit t.
      ok (take limit (ids_where (is_due (db.column_time now)) (db.order t.reservations)));
  delete_reservations_by_stock_item = λ id t. (delete_reservations id t, none);
  insert_reservation = insert_reservation db;
}
