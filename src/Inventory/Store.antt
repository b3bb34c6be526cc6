-- ===== src/Inventory/Store.antt =====
-- The store in memory: adapter/outbound/memory (stock_rows.go, stock_store.go, uow.go) of the
-- inventory context. The loop over a Go map visits the rows in the order of the list.
pub mod Unit
pub mod RoundTrip
pub mod Versions
pub mod Written
use go_ddd_template.Base.{
  String, Bool, true, false, not, ◌&&◌, ◌||◌, Option, none, some, List, [], ◌∷◌, ◌++◌, GoInt, Time,
  add_int, less_int, leb, length, is_zero_time, before, ◌==◌, str_eq, Result, ok, err, ◌>>=◌,
  map_err, if◌then◌else◌,
}
use go_ddd_template.Base.Dict.{Dict, lookup}
use go_ddd_template.Shared.Rows.{Staging, stage, apply_group}
use go_ddd_template.Shared.Outbox.{Message}
use go_ddd_template.Shared.Outbox.Memory.{Stores, commit_staged}
use go_ddd_template.Inventory.Errors.{
  Error, sentinel, wrapped, concurrency_conflict, other_error, stock_item_not_found,
}
use go_ddd_template.Inventory.Values.{
  Quantity, Sku, ReservationRef, new_quantity, new_sku, new_reservation_ref,
}
use go_ddd_template.Inventory.Reservation.{
  ReservationStatus, Reservation, is_pending, reconstitute_reservation,
}
use go_ddd_template.Inventory.StockItem.{
  StockItem, reconstitute_stock_item, reservations_of, mark_persisted,
}
use go_ddd_template.Inventory.Ports.{StockStore, Repos, UnitOfWork}

pub record ReservationRow : Type 0 where
  pub ref : String
  pub quantity : GoInt
  pub status : ReservationStatus
  pub expires_at : Time

pub record StockRow : Type 0 where
  pub id : String
  pub sku : String
  pub available : GoInt
  pub version : GoInt
  pub reservations : List ReservationRow

-- One round of the loop of stockRowToStockItem.
unfoldable pub row_to_reservation : ReservationRow → Result Error Reservation
unfolding new_reservation_ref new_quantity reconstitute_reservation
row_to_reservation rr = do
  ref ← map_err wrapped (new_reservation_ref rr.ref)
  rq ← map_err wrapped (new_quantity rr.quantity)
  ok (reconstitute_reservation ref rq rr.status rr.expires_at)

unfoldable pub rows_to_reservations :
    List ReservationRow → List Reservation → Result Error (List Reservation)
unfolding row_to_reservation
rows_to_reservations [] reservations = ok reservations
rows_to_reservations (rr ∷ rows) reservations = do
  r ← row_to_reservation rr
  rows_to_reservations rows (reservations ++ r ∷ [])

unfoldable pub stock_row_to_stock_item : StockRow → Result Error StockItem
unfolding new_quantity new_sku rows_to_reservations reconstitute_stock_item
stock_row_to_stock_item r = do
  qty ← map_err wrapped (new_quantity r.available)
  loaded_sku ← map_err wrapped (new_sku r.sku)
  reservations ← rows_to_reservations r.reservations []
  ok (reconstitute_stock_item r.id loaded_sku qty r.version reservations)

abbrev any_ref : String → List ReservationRow → Bool
any_ref ref [] = false
any_ref ref (rr ∷ rows) = str_eq rr.ref ref || any_ref ref rows

unfoldable pub stock_row_has_reservation : StockRow → String → Bool
stock_row_has_reservation r ref = any_ref ref r.reservations

abbrev any_expired : Time → List ReservationRow → Bool
any_expired now [] = false
any_expired now (rr ∷ rows) =
    (is_pending rr.status && not (is_zero_time rr.expires_at) && not (before now rr.expires_at))
    || any_expired now rows

unfoldable pub stock_row_has_expired_pending : StockRow → Time → Bool
stock_row_has_expired_pending r now = any_expired now r.reservations

abbrev pub reservation_to_row : Reservation → ReservationRow
reservation_to_row r = record {
  ref = r.ref.value;
  quantity = r.qty.value;
  status = r.status;
  expires_at = r.expires_at;
}

unfoldable pub reservations_to_rows : List Reservation → List ReservationRow
reservations_to_rows [] = []
reservations_to_rows (r ∷ res) = reservation_to_row r ∷ reservations_to_rows res

unfoldable pub stock_item_to_row : StockItem → GoInt → StockRow
unfolding reservations_of reservations_to_rows
stock_item_to_row item version = record {
  id = item.id;
  sku = item.sku.value;
  available = item.available.value;
  version = version;
  reservations = reservations_to_rows (reservations_of item.reservations);
}

unfoldable pub load_stock_item : Dict StockRow → Sku → Result Error StockItem
unfolding lookup stock_row_to_stock_item
load_stock_item rows sku = elim (lookup sku.value rows) [
  | none ↦ err (wrapped (sentinel stock_item_not_found))
  | some r ↦ stock_row_to_stock_item r
]

-- The rows of the keys that have one, in the order of the keys.
unfoldable pub load_stock_items_by_sku :
    Dict StockRow → List Sku → List StockItem → Result Error (List StockItem)
unfolding lookup stock_row_to_stock_item
load_stock_items_by_sku rows [] items = ok items
load_stock_items_by_sku rows (sku ∷ skus) items = elim (lookup sku.value rows) [
  | none ↦ load_stock_items_by_sku rows skus items
  | some r ↦
      stock_row_to_stock_item r >>= λ item. load_stock_items_by_sku rows skus (items ++ item ∷ [])
]

unfoldable pub load_stock_items_by_reservation :
    Dict StockRow → ReservationRef → List StockItem → Result Error (List StockItem)
unfolding stock_row_has_reservation stock_row_to_stock_item
load_stock_items_by_reservation [] ref items = ok items
load_stock_items_by_reservation ((key, r) ∷ rows) ref items =
    elim (stock_row_has_reservation r ref.value) [
      | false ↦ load_stock_items_by_reservation rows ref items
      | true ↦ stock_row_to_stock_item r >>= λ item.
          load_stock_items_by_reservation rows ref (items ++ item ∷ [])
    ]

unfoldable pub load_expired_pending_stock_items :
    Dict StockRow → Time → GoInt → List StockItem → Result Error (List StockItem)
unfolding stock_row_has_expired_pending stock_row_to_stock_item
load_expired_pending_stock_items [] now limit items = ok items
load_expired_pending_stock_items ((key, r) ∷ rows) now limit items =
    elim (stock_row_has_expired_pending r now) [
      | false ↦ load_expired_pending_stock_items rows now limit items
      | true ↦ stock_row_to_stock_item r >>= λ item.
          elim (less_int 0 limit && leb limit (length (items ++ item ∷ []))) [
            | true ↦ ok (items ++ item ∷ [])
            | false ↦ load_expired_pending_stock_items rows now limit (items ++ item ∷ [])
          ]
    ]
