-- ===== src/Inventory/Postgres/Reading.antt =====
-- Reading the reservations of an aggregate back, in whatever order the database gives their rows: the
-- loop of reconstitute in stock_store.go of adapter/outbound/postgres.
use go_ddd_template.Base.{
  ◌<◌, ◌^◌, String, Bool, true, false, not, ◌||◌, Option, none, some, List, [], ◌∷◌, ◌++◌, All,
  Elem, ◌≡◌, refl, sym, ap, subst, ◌∙◌, inl, inr, str_eq, eq_iff, eq_refl, keep_if, arith, ok,
  append-nil, append_assoc, Bool-cases, Option-cases, if◌then◌else◌, Elem-append, Elem-append_right,
  Elem-keep_if, keep_if-Elem, no_element,
}
use mathlib.Core.Option
use go_ddd_template.Base.Dict.{Dict, Distinct, lookup, insert, lookup-insert}
use go_ddd_template.Inventory.Reservation.{Reservation}
use go_ddd_template.Inventory.StockItem.{index_reservations}
use go_ddd_template.Inventory.StockItem.Totals.{total}
use go_ddd_template.Inventory.StockItem.Invariant.{IsHeld}
use go_ddd_template.Inventory.Store.RoundTrip.{IsNamed}
use go_ddd_template.Inventory.Postgres.{
  StockReservationRow, row_of_reservation, reservation_of_row, reservations_of_rows,
}
use go_ddd_template.Inventory.Postgres.Tables.{Database, IsArrangement, column, of_item}
use go_ddd_template.Inventory.Postgres.RoundTrip.{
  IsKept, in_column, rows_of, reservation_of_row-row_of,
}

abbrev pub other_items : String → List StockReservationRow → List StockReservationRow
other_items id rows = keep_if (λ r. not (str_eq r.stock_item_id id)) rows

-- Some reservation, or row, has the reference.
abbrev has_ref : String → List Reservation → Bool
has_ref k [] = false
has_ref k (r ∷ rs) = str_eq r.ref.value k || has_ref k rs

abbrev has_row : String → List StockReservationRow → Bool
has_row k [] = false
has_row k (row ∷ rows) = str_eq row.ref k || has_row k rows

-- An index built from reservations that agree with `f` is `f` at the references it has.
lookup-index_reservations :
    (f : String → Option Reservation) (k : String) (d : Dict Reservation) (rs : List Reservation)
    → All (λ r. f r.ref.value ≡ some r) rs
    → lookup k (index_reservations d rs) ≡ (if has_ref k rs then f k else lookup k d)
unfolding index_reservations
lookup-index_reservations f k d [] a = refl
lookup-index_reservations f k d (r ∷ rs) a = ground (
  arith,
  lookup-index_reservations f k (insert r.ref.value r d) rs a.1,
  lookup-insert r.ref.value k r d,
  eq_iff r.ref.value k,
  a.0,
)

-- A row that is read as the entry that `f` has under its reference.
abbrev pub IsRow : (String → Option Reservation) → StockReservationRow → Type 0
IsRow f row =
    (r : Reservation) × (reservation_of_row row ≡ ok r)
    × (r.ref.value ≡ row.ref)
    × (f row.ref ≡ some r)

-- The loop of reconstitute over such rows.
abbrev pub IsRead :
    (String → Option Reservation) → List StockReservationRow → List Reservation → Type 0
IsRead f rows done =
    (rs : List Reservation) × (reservations_of_rows rows done ≡ ok (done ++ rs))
    × All (λ r. f r.ref.value ≡ some r) rs
    × ((k : String) → has_ref k rs ≡ has_row k rows)

IsRow-IsRead :
    (f : String → Option Reservation) (rows : List StockReservationRow) (done : List Reservation)
    → ((row : StockReservationRow) → Elem row rows → IsRow f row)
    → IsRead f rows done
unfolding reservations_of_rows
IsRow-IsRead f [] done h = ([], ap ok (sym (append-nil done)), tt, λ k. refl)
IsRow-IsRead f (row ∷ rows) done h =
    let (r, read, ref, found) = h row (inl refl) in
    let (rs, reads, agree, refs) = IsRow-IsRead f rows (done ++ r ∷ []) (λ x m. h x (inr m)) in
    (
      r ∷ rs,
      ground (arith, read, reads, append_assoc done (r ∷ []) rs),
      (ap f ref ∙ found, agree),
      λ k. ground (arith, refs k, ref),
    )

Elem-has_row :
    (row : StockReservationRow) (rows : List StockReservationRow)
    → Elem row rows
    → has_row row.ref rows ≡ true
Elem-has_row row [] m = absurd m.lower
Elem-has_row row (x ∷ rows) (inl here) = ground (arith, eq_refl row.ref, ap (λ x. x.ref) here)
Elem-has_row row (x ∷ rows) (inr later) = ground (arith, Elem-has_row row rows later)

module _ (db : Database) (id : String) where
  -- The entry of the aggregate, as the column keeps it.
  abbrev pub entry : Dict Reservation → String → Option Reservation
  entry m k = Option.map (in_column db.column_time) (lookup k m)

  IsRow-cons :
      (key : String) (r : Reservation) (m : Dict Reservation) (row : StockReservationRow)
      → lookup key m ≡ none
      → IsRow (entry m) row
      → IsRow (entry ((key, r) ∷ m)) row
  unfolding lookup
  IsRow-cons key r m row fresh (x, read, ref, found) =
      (x, read, ref, ground (arith, found, fresh, eq_iff key row.ref))

  rows_of-IsRow :
      (m : Dict Reservation) (row : StockReservationRow)
      → Distinct m
      → All IsHeld m
      → All IsNamed m
      → All IsKept m
      → total m < 2 ^ 31
      → Elem row (rows_of db id m)
      → IsRow (entry m) row
  unfolding lookup row_of_reservation
  rows_of-IsRow [] row d h n k b e = absurd e.lower
  rows_of-IsRow ((key, r) ∷ m) row d h n k b (inl here) =
      subst (IsRow (entry ((key, r) ∷ m))) (sym here) (
        in_column db.column_time r,
        reservation_of_row-row_of db id r n.0 k.0 (omega (arith, b)),
        refl,
        ground (arith, h.0.0, eq_refl r.ref.value),
      )
  rows_of-IsRow ((key, r) ∷ m) row d h n k b (inr later) =
      IsRow-cons key r m row d.0 (rows_of-IsRow m row d.1 h.1 n.1 k.1 (omega (arith, b)) later)

  -- Every entry has its row.
  entry_row :
      (k : String) (r : Reservation) (m : Dict Reservation)
      → All IsHeld m
      → lookup k m ≡ some r
      → Elem (column db (row_of_reservation id r)) (rows_of db id m) × (r.ref.value ≡ k)
  unfolding lookup
  entry_row k r [] h l = absurd cc
  entry_row k r ((key, x) ∷ m) h l = elim (Bool-cases (str_eq key k)) [
    | inl same ↦
        let e : x ≡ r = ground (arith, l, same) in
        (
          inl (ap (λ y. column db (row_of_reservation id y)) (sym e)),
          ap (λ y. y.ref.value) (sym e) ∙ sym h.0.0 ∙ (eq_iff key k).0 same,
        )
    | inr differs ↦
        let rest = entry_row k r m h.1 (ground (arith, l, differs)) in (inr rest.0, rest.1)
  ]

  rows_of_item :
      (m : Dict Reservation) (row : StockReservationRow)
      → Elem row (rows_of db id m)
      → str_eq row.stock_item_id id ≡ true
  unfolding row_of_reservation
  rows_of_item [] row e = absurd e.lower
  rows_of_item ((key, r) ∷ m) row (inl here) =
      ground (arith, eq_refl id, ap (λ x. x.stock_item_id) here)
  rows_of_item ((key, r) ∷ m) row (inr later) = rows_of_item m row later

  -- The rows that are read, once the rows of the aggregate are deleted and written again.
  abbrev pub scanned : Dict Reservation → List StockReservationRow → List StockReservationRow
  scanned m rows = of_item id (db.order (other_items id rows ++ rows_of db id m))

  scanned-rows_of :
      (m : Dict Reservation) (rows : List StockReservationRow) (row : StockReservationRow)
      → IsArrangement db.order
      → Elem row (scanned m rows)
      → Elem row (rows_of db id m)
  unfolding of_item
  scanned-rows_of m rows row o e =
      let (there, own) = Elem-keep_if (λ r. str_eq r.stock_item_id id) row _ e in
      elim (Elem-append row (other_items id rows) (rows_of db id m) (o.only row _ there)) [
        | inl old ↦
            let other = (Elem-keep_if (λ r. not (str_eq r.stock_item_id id)) row rows old).1 in
            absurd (ground (arith, own, other))
        | inr new ↦ new
      ]

  rows_of-scanned :
      (m : Dict Reservation) (rows : List StockReservationRow) (row : StockReservationRow)
      → IsArrangement db.order
      → Elem row (rows_of db id m)
      → Elem row (scanned m rows)
  unfolding of_item
  rows_of-scanned m rows row o e =
      keep_if-Elem (λ r. str_eq r.stock_item_id id) row _
        (o.kept row _ (Elem-append_right row (other_items id rows) _ e)) (rows_of_item m row e)

  -- Without an entry no row is read.
  pub scanned_none :
      (rows : List StockReservationRow) → IsArrangement db.order → scanned [] rows ≡ []
  scanned_none rows o = no_element _ (λ row e. (scanned-rows_of [] rows row o e).lower)

  has_row-entry :
      (k : String) (m : Dict Reservation) (rows : List StockReservationRow)
      → IsArrangement db.order
      → All IsHeld m
      → has_row k (scanned m rows) ≡ false
      → entry m k ≡ none
  unfolding row_of_reservation
  has_row-entry k m rows o h f = elim (Option-cases (lookup k m)) [
    | inl e ↦ ap (Option.map (in_column db.column_time)) e
    | inr ((r, e)) ↦
        let (there, ref) = entry_row k r m h e in
        let found = Elem-has_row _ _ (rows_of-scanned m rows _ o there) in
        absurd (ground (arith, found, ref, f))
  ]

  -- What reconstitute reads of those rows: reservations whose index has the entry of every key.
  pub scanned_read :
      (m : Dict Reservation) (rows : List StockReservationRow)
      → IsArrangement db.order
      → Distinct m
      → All IsHeld m
      → All IsNamed m
      → All IsKept m
      → total m < 2 ^ 31
      → (rs : List Reservation) × (reservations_of_rows (scanned m rows) [] ≡ ok rs)
        × ((k : String) → lookup k (index_reservations [] rs) ≡ entry m k)
  unfolding lookup
  scanned_read m rows o d h n kept b =
      let (rs, read, agree, refs) =
        IsRow-IsRead (entry m) (scanned m rows) []
          (λ row e. rows_of-IsRow m row d h n kept b (scanned-rows_of m rows row o e)) in
      (
        rs,
        read,
        λ k. lookup-index_reservations (entry m) k [] rs agree ∙ elim (Bool-cases (has_ref k rs)) [
          | inl y ↦ rw y refl
          | inr n ↦ rw n (sym (has_row-entry k m rows o h (sym (refs k) ∙ n)))
        ],
      )
