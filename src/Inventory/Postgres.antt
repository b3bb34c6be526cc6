-- ===== src/Inventory/Postgres.antt =====
-- The inventory's stores on PostgreSQL: stock_store.go, outbox.go and uow.go of
-- contexts/inventory/internal/adapter/outbound/postgres. The queries are code that sqlc generates from
-- contexts/inventory/db/queries.sql, an argument here; `T` is the state that they work on. An int32 is
-- its pattern below 2 ^ 32.
pub mod Save
pub mod Tables
pub mod RoundTrip
pub mod Reading
pub mod SaveLoad
pub mod Conflict
pub mod Truncation
use go_ddd_template.Base.{
  ℕ, String, Bool, true, false, not, ◌&&◌, Option, none, some, List, [], ◌∷◌, ◌++◌, GoInt, Time,
  zero_time, is_zero_time, add_int, to_int32, of_int32, ◌==◌, str_eq, Result, ok, err, ◌>>=◌,
  map_err, if◌then◌else◌,
}
use go_ddd_template.Shared.Postgres.{
  DbError, no_rows, unique_violation, other_failure, Pool, within,
}
use go_ddd_template.Shared.Postgres.Outbox.{OutboxQueries, enqueue}
use go_ddd_template.Inventory.Errors.{
  Error, sentinel, wrapped, concurrency_conflict, other_error, is_sentinel, stock_item_not_found,
}
use go_ddd_template.Inventory.Values.{
  Sku, ReservationRef, new_quantity, new_sku, new_reservation_ref,
}
use go_ddd_template.Inventory.Reservation.{
  ReservationStatus, Reservation, pending, confirmed, is_pending, status_string,
  reconstitute_reservation,
}
use go_ddd_template.Inventory.StockItem.{
  StockItem, reconstitute_stock_item, reservations_of, mark_persisted,
}
use go_ddd_template.Inventory.Ports.{StockStore, Repos, UnitOfWork}

pub record StockItemRow : Type 0 where
  pub id : String
  pub sku : String
  pub available : ℕ
  pub version : ℕ

-- `none` is NULL.
pub record StockReservationRow : Type 0 where
  pub stock_item_id : String
  pub ref : String
  pub quantity : ℕ
  pub status : String
  pub expires_at : Option Time

-- The generated UpdateStockItemParams; `expected` is Version_2.
pub record UpdateStockItemParams : Type 0 where
  pub available : ℕ
  pub version : ℕ
  pub sku : String
  pub expected : ℕ

-- The generated Queries.
pub record StockQueries (T : Type 0) : Type 0 where
  pub get_stock_item_by_sku : String → T → Result DbError StockItemRow
  pub get_stock_item_by_id : String → T → Result DbError StockItemRow
  pub insert_stock_item : StockItemRow → T → T × Option DbError
  pub update_stock_item : UpdateStockItemParams → T → T × Result DbError ℕ
  pub list_reservations_by_stock_item : String → T → Result DbError (List StockReservationRow)
  pub list_stock_item_ids_by_reservation_ref : String → T → Result DbError (List String)
  pub list_expired_pending_stock_item_ids : Time → ℕ → T → Result DbError (List String)
  pub delete_reservations_by_stock_item : String → T → T × Option DbError
  pub insert_reservation : StockReservationRow → T → T × Option DbError

-- An error of the driver, wrapped; no code asks for it behind this.
abbrev pub failed : DbError → Error
failed e = wrapped other_error

abbrev pub result_failed {ℓ} : {A : Type ℓ} → Result DbError A → Result Error A
result_failed (ok a) = ok a
result_failed (err e) = err (failed e)

unfoldable pub parse_reservation_status : String → Result Error ReservationStatus
parse_reservation_status s =
    if str_eq s "pending"
    then ok pending
    else if str_eq s "confirmed"
    then ok confirmed
    else err other_error

-- The zero time for NULL.
abbrev pub time_of : Option Time → Time
time_of none = zero_time
time_of (some t) = t

-- One round of the loop of reconstitute.
unfoldable pub reservation_of_row : StockReservationRow → Result Error Reservation
unfolding new_reservation_ref new_quantity parse_reservation_status reconstitute_reservation
reservation_of_row rr = do
  ref ← map_err wrapped (new_reservation_ref rr.ref)
  rq ← map_err wrapped (new_quantity (of_int32 rr.quantity))
  status ← parse_reservation_status rr.status
  ok (reconstitute_reservation ref rq status (time_of rr.expires_at))

unfoldable pub reservations_of_rows :
    List StockReservationRow → List Reservation → Result Error (List Reservation)
unfolding reservation_of_row
reservations_of_rows [] reservations = ok reservations
reservations_of_rows (rr ∷ rows) reservations = do
  r ← reservation_of_row rr
  reservations_of_rows rows (reservations ++ r ∷ [])

-- The row that saveReservations writes for a reservation.
unfoldable pub row_of_reservation : String → Reservation → StockReservationRow
unfolding status_string
row_of_reservation id r = record {
  stock_item_id = id;
  ref = r.ref.value;
  quantity = to_int32 r.qty.value;
  status = status_string r.status;
  expires_at =
      if is_pending r.status && not (is_zero_time r.expires_at) then some r.expires_at else none;
}

module _ {T : Type 0} (q : StockQueries T) where
  unfoldable pub reconstitute : StockItemRow → T → Result Error StockItem
  unfolding new_quantity new_sku reservations_of_rows reconstitute_stock_item
  reconstitute row tx = do
    qty ← map_err wrapped (new_quantity (of_int32 row.available))
    loaded_sku ← map_err wrapped (new_sku row.sku)
    res_rows ← result_failed (q.list_reservations_by_stock_item row.id tx)
    reservations ← reservations_of_rows res_rows []
    ok (reconstitute_stock_item row.id loaded_sku qty (of_int32 row.version) reservations)

  unfoldable pub load : Sku → T → Result Error StockItem
  unfolding reconstitute
  load sku tx = elim (q.get_stock_item_by_sku sku.value tx) [
    | ok row ↦ reconstitute row tx
    | err no_rows ↦ err (wrapped (sentinel stock_item_not_found))
    | err e ↦ err (failed e)
  ]

  unfoldable pub load_many : List Sku → List StockItem → T → Result Error (List StockItem)
  unfolding load is_sentinel
  load_many [] items tx = ok items
  load_many (sku ∷ skus) items tx = elim (load sku tx) [
    | ok item ↦ load_many skus (items ++ item ∷ []) tx
    | err e ↦ elim (is_sentinel e stock_item_not_found) [
      | true ↦ load_many skus items tx
      | false ↦ err e
    ]
  ]

  unfoldable pub load_by_ids : List String → List StockItem → T → Result Error (List StockItem)
  unfolding reconstitute
  load_by_ids [] items tx = ok items
  load_by_ids (id ∷ ids) items tx = elim (q.get_stock_item_by_id id tx) [
    | ok row ↦ reconstitute row tx >>= λ item. load_by_ids ids (items ++ item ∷ []) tx
    | err no_rows ↦ load_by_ids ids items tx
    | err e ↦ err (failed e)
  ]

  unfoldable pub load_by_reservation : ReservationRef → T → Result Error (List StockItem)
  unfolding load_by_ids
  load_by_reservation ref tx =
      result_failed (q.list_stock_item_ids_by_reservation_ref ref.value tx) >>= λ ids.
      load_by_ids ids [] tx

  unfoldable pub load_expired_pending : Time → GoInt → T → Result Error (List StockItem)
  unfolding load_by_ids
  load_expired_pending before limit tx =
      result_failed (q.list_expired_pending_stock_item_ids before (to_int32 limit) tx) >>= λ ids.
      load_by_ids ids [] tx

  -- The inserts of saveReservations.
  unfoldable pub insert_reservations : String → List Reservation → T → T × Option Error
  unfolding row_of_reservation
  insert_reservations id [] tx = (tx, none)
  insert_reservations id (r ∷ res) tx =
      let (tx', failure) = q.insert_reservation (row_of_reservation id r) tx in
      elim failure [ some e ↦ (tx', some (failed e)) | none ↦ insert_reservations id res tx' ]

  unfoldable pub save_reservations : StockItem → T → T × Option Error
  unfolding insert_reservations reservations_of
  save_reservations item tx =
      let (tx', failure) = q.delete_reservations_by_stock_item item.id tx in
      elim failure [
        | some e ↦ (tx', some (failed e))
        | none ↦ insert_reservations item.id (reservations_of item.reservations) tx'
      ]
