-- ===== src/Inventory/StockItem/Keys.antt =====
-- The map of reservations has each one under its own reference: domain/stock_item.go.
use go_ddd_template.Base.{String, List, [], ◌∷◌, All, ◌≡◌, refl, eq_iff, arith, Clock, Duration}
use go_ddd_template.Base.Dict.{Dict, insert}
use go_ddd_template.Inventory.Values.{Quantity, ReservationRef}
use go_ddd_template.Inventory.Reservation.{Reservation}
use go_ddd_template.Inventory.StockItem.{
  StockItem, index_reservations, reserve, hold, pending_reservation,
}

abbrev pub IsKeyed : String × Reservation → Type 0
IsKeyed (key, r) = r.ref.value ≡ key

abbrev pub AreKeyed : StockItem → Type 0
AreKeyed s = All IsKeyed s.reservations

insert-IsKeyed :
    (r : Reservation) (m : Dict Reservation) → All IsKeyed m → All IsKeyed (insert r.ref.value r m)
unfolding insert
insert-IsKeyed r [] a = (refl, tt)
insert-IsKeyed r ((key, old) ∷ m) a =
    ground (arith, a, eq_iff key r.ref.value, insert-IsKeyed r m a.1)

pub index_reservations-IsKeyed :
    (rs : List Reservation) (m : Dict Reservation)
    → All IsKeyed m
    → All IsKeyed (index_reservations m rs)
unfolding index_reservations
index_reservations-IsKeyed [] m a = a
index_reservations-IsKeyed (r ∷ rs) m a =
    index_reservations-IsKeyed rs (insert r.ref.value r m) (insert-IsKeyed r m a)

pub reserve-AreKeyed :
    (clk : Clock) (ref : ReservationRef) (qty : Quantity) (ttl : Duration) (s : StockItem)
    → AreKeyed s
    → AreKeyed (reserve clk ref qty ttl s).0
unfolding reserve hold
reserve-AreKeyed clk ref qty ttl s a =
    ground (arith, insert-IsKeyed (pending_reservation (clk 0) ref qty ttl) s.reservations a)
