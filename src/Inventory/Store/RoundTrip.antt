-- ===== src/Inventory/Store/RoundTrip.antt =====
-- What a row keeps of an aggregate: stockItemToRow, then stockRowToStockItem.
use go_ddd_template.Base.{
  ◌<◌, String, ◌≡◌, false, List, [], ◌∷◌, ◌++◌, All, arith, sign_bit, is_empty, trim_space, GoInt,
  ok, append-nil, append_assoc,
}
use go_ddd_template.Base.Dict.{Dict, Distinct, insert_fresh, fresh-middle}
use go_ddd_template.Inventory.Values.{new_sku, new_reservation_ref, new_quantity}
use go_ddd_template.Inventory.Reservation.{Reservation, reconstitute_reservation}
use go_ddd_template.Inventory.StockItem.{
  StockItem, reservations_of, index_reservations, reconstitute_stock_item,
}
use go_ddd_template.Inventory.StockItem.Totals.{total}
use go_ddd_template.Inventory.StockItem.Invariant.{IsValid, IsHeld}
use go_ddd_template.Inventory.Store.{
  stock_item_to_row, stock_row_to_stock_item, rows_to_reservations, row_to_reservation,
  reservations_to_rows, reservation_to_row,
}

-- What NewSKU and NewReservationRef make: a trimmed text that is not empty.
abbrev pub IsName : String → Type 0
IsName s = (trim_space s ≡ s) × (is_empty s ≡ false)

abbrev pub IsNamed : String × Reservation → Type 0
IsNamed (key, r) = IsName r.ref.value

row_to_reservation-to_row :
    (key : String) (r : Reservation)
    → IsNamed (key, r)
    → r.qty.value < sign_bit
    → row_to_reservation (reservation_to_row r) ≡ ok r
unfolding row_to_reservation new_reservation_ref new_quantity reconstitute_reservation
row_to_reservation-to_row key r n b = ground (arith, n.0, n.1)

rows_to_reservations-to_rows :
    (m : Dict Reservation) (done : List Reservation)
    → All IsNamed m
    → total m < sign_bit
    → rows_to_reservations (reservations_to_rows (reservations_of m)) done
      ≡ ok (done ++ reservations_of m)
unfolding rows_to_reservations reservations_to_rows reservations_of
rows_to_reservations-to_rows [] done a b = ground (arith, append-nil done)
rows_to_reservations-to_rows ((key, r) ∷ m) done a b = ground (
  arith,
  row_to_reservation-to_row key r a.0,
  rows_to_reservations-to_rows m (done ++ r ∷ []) a.1,
  append_assoc done (r ∷ []) (reservations_of m),
)

pub index_reservations-of :
    (done m : Dict Reservation)
    → Distinct (done ++ m)
    → All IsHeld m
    → index_reservations done (reservations_of m) ≡ done ++ m
unfolding index_reservations reservations_of
index_reservations-of done [] d a = ground (arith, append-nil done)
index_reservations-of done ((key, r) ∷ m) d a = ground (
  arith,
  insert_fresh key r done (fresh-middle key r done m d),
  append_assoc done ((key, r) ∷ []) m,
  index_reservations-of (done ++ (key, r) ∷ []) m,
)

-- A valid stock item whose names are as NewSKU and NewReservationRef make them, written to a row and
-- read back, is itself with the version of the row and without its events.
pub stock_row_to_stock_item-to_row :
    (s : StockItem) (version : GoInt)
    → IsValid s
    → IsName s.sku.value
    → All IsNamed s.reservations
    → stock_row_to_stock_item (stock_item_to_row s version)
      ≡ ok (record s { version = version; events = [] })
unfolding stock_row_to_stock_item stock_item_to_row new_sku new_quantity reconstitute_stock_item
stock_row_to_stock_item-to_row s version v n names = ground (
  arith,
  v.bounded,
  n.0,
  n.1,
  rows_to_reservations-to_rows s.reservations [] names,
  index_reservations-of [] s.reservations v.distinct v.held,
)
