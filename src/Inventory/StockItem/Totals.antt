-- ===== src/Inventory/StockItem/Totals.antt =====
-- The sum of the reservations of a stock item as a plain number, and how map writes change it.
use go_ddd_template.Base.{
  ℕ, ◌+◌, ◌%◌, ◌<◌, String, ◌≡◌, none, some, [], ◌∷◌, arith, int_mod, eq_iff,
}
use go_ddd_template.Base.Dict.{Dict, Distinct, lookup, insert, delete, delete_fresh}
use go_ddd_template.Inventory.Values.{Quantity, zero_quantity, add}
use go_ddd_template.Inventory.Reservation.{Reservation}
use go_ddd_template.Inventory.StockItem.{StockItem, sum_reservations, reserved}

abbrev pub total : Dict Reservation → ℕ
total [] = 0
total ((key, r) ∷ rest) = r.qty.value + total rest

sum_reservations-total :
    (m : Dict Reservation) (q : Quantity)
    → q.value < int_mod
    → (sum_reservations q m).value ≡ (q.value + total m) % int_mod
unfolding sum_reservations
sum_reservations-total [] q h = omega arith
sum_reservations-total ((key, r) ∷ rest) q h =
    unfold add in omega (arith, sum_reservations-total rest (add q r.qty) (omega arith))

pub reserved-total : (s : StockItem) → (reserved s).value ≡ total s.reservations % int_mod
unfolding reserved
reserved-total s = omega (arith, sum_reservations-total s.reservations zero_quantity (omega arith))

pub total-insert_fresh :
    (k : String) (r : Reservation) (m : Dict Reservation)
    → lookup k m ≡ none
    → total (insert k r m) ≡ total m + r.qty.value
unfolding lookup insert
total-insert_fresh k r [] h = omega arith
total-insert_fresh k r ((j, w) ∷ m) h = ground (arith, total-insert_fresh k r m)

pub total-insert_held :
    (k : String) (r old : Reservation) (m : Dict Reservation)
    → lookup k m ≡ some old
    → total (insert k r m) + old.qty.value ≡ total m + r.qty.value
unfolding lookup insert
total-insert_held k r old [] h = cc
total-insert_held k r old ((j, w) ∷ m) h = ground (arith, total-insert_held k r old m)

pub total-delete :
    (k : String) (old : Reservation) (m : Dict Reservation)
    → Distinct m
    → lookup k m ≡ some old
    → total (delete k m) + old.qty.value ≡ total m
unfolding lookup delete
total-delete k old [] d h = cc
total-delete k old ((j, w) ∷ m) d h =
    ground (arith, eq_iff j k, total-delete k old m d.1, delete_fresh k m)
