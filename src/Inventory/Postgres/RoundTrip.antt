-- ===== src/Inventory/Postgres/RoundTrip.antt =====
-- What the tables keep of the reservations of an aggregate: saveReservations and the loop of
-- reconstitute, in stock_store.go of adapter/outbound/postgres.
use go_ddd_template.Base.{
  ◌<◌, ◌^◌, String, true, false, not, ◌||◌, none, List, [], ◌∷◌, ◌++◌, All, ◌≡◌, refl, subst,
  str_eq, eq_iff, keep_if, arith, ok, append-nil, append_assoc, zero_time, is_zero_time,
  if◌then◌else◌, Time,
}
use go_ddd_template.Base.Dict.{Dict, Distinct, lookup}
use go_ddd_template.Inventory.Values.{Quantity, ReservationRef, new_reservation_ref, new_quantity}
use go_ddd_template.Inventory.Reservation.{
  ReservationStatus, Reservation, pending, confirmed, other,
}
use go_ddd_template.Inventory.StockItem.{reservations_of}
use go_ddd_template.Inventory.StockItem.Totals.{total}
use go_ddd_template.Inventory.StockItem.Invariant.{IsHeld}
use go_ddd_template.Inventory.Store.RoundTrip.{IsName}
use go_ddd_template.Inventory.Postgres.{
  StockReservationRow, row_of_reservation, reservation_of_row, insert_reservations,
}
use go_ddd_template.Inventory.Postgres.Tables.{
  Database, Tables, tables, column, insert_reservation, same_key, has_reservation_key,
  allowed_reservation,
}

-- A reservation as Reserve and Confirm leave it: a confirmed one has no time.
abbrev pub TimeKept : ReservationStatus → Time → Type 0
TimeKept pending t = Unit
TimeKept confirmed t = t ≡ zero_time
TimeKept (other n) t = ⊥

abbrev pub IsKept : String × Reservation → Type 0
IsKept (key, r) = TimeKept r.status r.expires_at

-- A reservation whose time has been in the column; NULL is the zero time.
abbrev pub in_column : (Time → Time) → Reservation → Reservation
in_column column_time r = record r {
  expires_at = if is_zero_time r.expires_at then zero_time else column_time r.expires_at;
}

-- By the status.
fields_kept :
    (db : Database) (id : String) (ref : ReservationRef) (qty : Quantity)
    (status : ReservationStatus) (t : Time)
    → IsName ref.value
    → TimeKept status t
    → qty.value < 2 ^ 31
    → let r : Reservation = record { ref = ref; qty = qty; status = status; expires_at = t } in
      reservation_of_row (column db (row_of_reservation id r)) ≡ ok (in_column db.column_time r)
unfolding reservation_of_row row_of_reservation new_reservation_ref new_quantity
fields_kept db id ref qty pending t n k b = ground (arith, n.0, n.1)
fields_kept db id ref qty confirmed t n k b = ground (arith, n.0, n.1, k)
fields_kept db id ref qty (other m) t n k b = absurd k

pub reservation_of_row-row_of :
    (db : Database) (id : String) (r : Reservation)
    → IsName r.ref.value
    → TimeKept r.status r.expires_at
    → r.qty.value < 2 ^ 31
    → reservation_of_row (column db (row_of_reservation id r)) ≡ ok (in_column db.column_time r)
reservation_of_row-row_of db id r n k b = fields_kept db id r.ref r.qty r.status r.expires_at n k b

abbrev pub rows_of : Database → String → Dict Reservation → List StockReservationRow
rows_of db id [] = []
rows_of db id ((key, r) ∷ m) = column db (row_of_reservation id r) ∷ rows_of db id m

-- No row has the key of one of the references.
abbrev NoKeys : String → Dict Reservation → List StockReservationRow → Type 0
NoKeys id [] rows = Unit
NoKeys id ((key, r) ∷ m) rows =
    (has_reservation_key (row_of_reservation id r) rows ≡ false) × NoKeys id m rows

has_reservation_key-append :
    (db : Database) (row other_row : StockReservationRow) (rows : List StockReservationRow)
    → has_reservation_key row (rows ++ column db other_row ∷ [])
      ≡ (has_reservation_key row rows || same_key row other_row)
has_reservation_key-append db row other_row [] = ground arith
has_reservation_key-append db row other_row (r ∷ rows) =
    ground (arith, has_reservation_key-append db row other_row rows)

-- The row of another reference leaves the keys of the rest free.
NoKeys-append :
    (db : Database) (id : String) (r : Reservation) (m : Dict Reservation)
    (rows : List StockReservationRow)
    → lookup r.ref.value m ≡ none
    → All IsHeld m
    → NoKeys id m rows
    → NoKeys id m (rows ++ column db (row_of_reservation id r) ∷ [])
unfolding lookup row_of_reservation
NoKeys-append db id r [] rows f a k = tt
NoKeys-append db id r ((key, j) ∷ m) rows f a k = (
  ground (
    arith,
    has_reservation_key-append db (row_of_reservation id j) (row_of_reservation id r) rows,
    eq_iff r.ref.value j.ref.value,
    eq_iff key r.ref.value,
    k.0,
    a.0,
  ),
  NoKeys-append db id r m rows (ground (arith, f)) a.1 k.1,
)

of_status_allowed :
    (id : String) (ref : ReservationRef) (qty : Quantity) (status : ReservationStatus) (t : Time)
    → TimeKept status t
    → 0 < qty.value
    → qty.value < 2 ^ 31
    → let r : Reservation = record { ref = ref; qty = qty; status = status; expires_at = t } in
      allowed_reservation (row_of_reservation id r) ≡ true
unfolding row_of_reservation
of_status_allowed id ref qty pending t k p b = ground arith
of_status_allowed id ref qty confirmed t k p b = ground arith
of_status_allowed id ref qty (other m) t k p b = absurd k

-- The reservations of an aggregate are inserted, all of them, behind the rows that are there.
pub insert_reservations-rows_of :
    (db : Database) (id : String) (m : Dict Reservation) (t : Tables)
    → Distinct m
    → All IsHeld m
    → All IsKept m
    → total m < 2 ^ 31
    → NoKeys id m t.reservations
    → insert_reservations (tables db) id (reservations_of m) t
      ≡ (record t { reservations = t.reservations ++ rows_of db id m }, none)
unfolding insert_reservations insert_reservation reservations_of
insert_reservations-rows_of db id [] t d h k b f = ground (arith, append-nil t.reservations)
insert_reservations-rows_of db id ((key, r) ∷ m) t d h k b f =
    let row = row_of_reservation id r in
    let t' : Tables = record t { reservations = t.reservations ++ column db row ∷ [] } in
    let fresh : lookup r.ref.value m ≡ none = subst (λ k. lookup k m ≡ none) h.0.0 d.0 in
    let keys = NoKeys-append db id r m t.reservations fresh h.1 f.1 in
    ground (
      arith,
      f.0,
      of_status_allowed id r.ref r.qty r.status r.expires_at k.0 h.0.2,
      insert_reservations-rows_of db id m t' d.1 h.1 k.1 (omega arith) keys,
      append_assoc t.reservations (column db row ∷ []) (rows_of db id m),
    )

-- Deleting the rows of an aggregate leaves none of its keys.
kept_has_no_key :
    (id : String) (row : StockReservationRow) (rows : List StockReservationRow)
    → row.stock_item_id ≡ id
    → has_reservation_key row (keep_if (λ r. not (str_eq r.stock_item_id id)) rows) ≡ false
kept_has_no_key id row [] e = refl
kept_has_no_key id row (r ∷ rows) e =
    ground (arith, kept_has_no_key id row rows e, e, eq_iff r.stock_item_id id)

pub kept-NoKeys :
    (id : String) (m : Dict Reservation) (rows : List StockReservationRow)
    → NoKeys id m (keep_if (λ r. not (str_eq r.stock_item_id id)) rows)
unfolding row_of_reservation
kept-NoKeys id [] rows = tt
kept-NoKeys id ((key, r) ∷ m) rows =
    (kept_has_no_key id (row_of_reservation id r) rows refl, kept-NoKeys id m rows)
