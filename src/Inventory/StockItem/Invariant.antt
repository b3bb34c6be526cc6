-- ===== src/Inventory/StockItem/Invariant.antt =====
-- The invariant of a stock item and what each method does to it and to the stock on hand.
use go_ddd_template.Base.{
  ℕ, ◌+◌, ◌<◌, String, ◌≡◌, some, [], ◌∷◌, All, arith, sign_bit, eq_iff, Clock, Duration, false,
  Option-cases, inl, inr,
}
use go_ddd_template.Base.Dict.{
  Dict, Distinct, lookup, insert, delete, insert-Distinct, delete-Distinct,
}
use go_ddd_template.Inventory.Values.{Quantity, ReservationRef, IsQuantity, ref_is_zero}
use go_ddd_template.Inventory.Reservation.{Reservation}
use go_ddd_template.Inventory.StockItem.{
  StockItem, replenish, reserve, confirm, release, pending_reservation, confirmed_reservation,
}
use go_ddd_template.Inventory.StockItem.Totals.{
  total, total-insert_fresh, total-insert_held, total-delete,
}

-- A reservation stands under its own reference, which is not empty, and holds a positive quantity.
abbrev pub IsHeld : String × Reservation → Type 0
IsHeld (key, r) = (key ≡ r.ref.value) × (ref_is_zero r.ref ≡ false) × (0 < r.qty.value)

-- All the stock there is: free and reserved.
abbrev pub stock : StockItem → ℕ
stock s = s.available.value + total s.reservations

pub record IsValid (s : StockItem) : Type 0 where
  pub distinct : Distinct s.reservations
  pub held : All IsHeld s.reservations
  pub bounded : stock s < sign_bit

pub All-insert :
    (k : String) (r : Reservation) (m : Dict Reservation)
    → IsHeld (k, r)
    → All IsHeld m
    → All IsHeld (insert k r m)
unfolding insert
All-insert k r [] h a = (h, tt)
All-insert k r ((j, w) ∷ m) h a = ground (arith, eq_iff j k, All-insert k r m h a.1)

pub All-delete : (k : String) (m : Dict Reservation) → All IsHeld m → All IsHeld (delete k m)
unfolding delete
All-delete k [] a = tt
All-delete k ((j, w) ∷ m) a = ground (arith, All-delete k m a.1)

pub lookup-IsHeld :
    (k : String) (r : Reservation) (m : Dict Reservation)
    → All IsHeld m
    → lookup k m ≡ some r
    → IsHeld (k, r)
unfolding lookup
lookup-IsHeld k r [] a h = cc
lookup-IsHeld k r ((j, w) ∷ m) a h = ground (arith, eq_iff j k, lookup-IsHeld k r m a.1)

pub total-lookup :
    (k : String) (r : Reservation) (m : Dict Reservation)
    → Distinct m
    → lookup k m ≡ some r
    → r.qty.value < total m + 1
total-lookup k r m d h = omega (arith, total-delete k r m d h)

module _ (clk : Clock) (s : StockItem) (v : IsValid s) where
  pub stock-replenish :
      (qty : Quantity)
      → stock s + qty.value < sign_bit
      → stock (replenish clk qty s).0 ≡ stock s + qty.value
  unfolding replenish
  stock-replenish qty h = ground (arith, v.bounded)

  pub replenish-IsValid :
      (qty : Quantity) → stock s + qty.value < sign_bit → IsValid (replenish clk qty s).0
  unfolding replenish
  replenish-IsValid qty h = ground (arith, v)

  pub stock-reserve :
      (ref : ReservationRef) (qty : Quantity) (ttl : Duration)
      → IsQuantity qty
      → stock (reserve clk ref qty ttl s).0 ≡ stock s
  unfolding reserve
  stock-reserve ref qty ttl q = ground (
    arith,
    v.bounded,
    total-insert_fresh ref.value (pending_reservation (clk 0) ref qty ttl) s.reservations,
  )

  pub reserve-IsValid :
      (ref : ReservationRef) (qty : Quantity) (ttl : Duration)
      → IsQuantity qty
      → IsValid (reserve clk ref qty ttl s).0
  unfolding reserve
  reserve-IsValid ref qty ttl q =
      let r = pending_reservation (clk 0) ref qty ttl in
      ground (
        arith,
        v,
        total-insert_fresh ref.value r s.reservations,
        insert-Distinct ref.value r s.reservations v.distinct,
        All-insert ref.value r s.reservations,
      )

  pub stock-confirm : (ref : ReservationRef) → stock (confirm clk ref s).0 ≡ stock s
  unfolding confirm
  stock-confirm ref = elim (Option-cases (lookup ref.value s.reservations)) [
    | inl e ↦ rw (e, confirm)
    | inr (r, e) ↦
        rw (e, confirm)
          (ground (arith, total-insert_held ref.value (confirmed_reservation r) r s.reservations e))
  ]

  pub confirm-IsValid : (ref : ReservationRef) → IsValid (confirm clk ref s).0
  unfolding confirm
  confirm-IsValid ref = elim (Option-cases (lookup ref.value s.reservations)) [
    | inl e ↦ rw (e, confirm) v
    | inr (r, e) ↦
        rw (e, confirm)
          (ground (
            arith,
            v,
            total-insert_held ref.value (confirmed_reservation r) r s.reservations e,
            insert-Distinct ref.value (confirmed_reservation r) s.reservations v.distinct,
            lookup-IsHeld ref.value r s.reservations v.held e,
            All-insert ref.value (confirmed_reservation r) s.reservations,
          ))
  ]

  pub stock-release : (ref : ReservationRef) → stock (release clk ref s).0 ≡ stock s
  unfolding release
  stock-release ref = elim (Option-cases (lookup ref.value s.reservations)) [
    | inl e ↦ rw (e, release)
    | inr (r, e) ↦
        rw (e, release)
          (omega (arith, v.bounded, total-delete ref.value r s.reservations v.distinct e))
  ]

  pub release-IsValid : (ref : ReservationRef) → IsValid (release clk ref s).0
  unfolding release
  release-IsValid ref = elim (Option-cases (lookup ref.value s.reservations)) [
    | inl e ↦ rw (e, release) v
    | inr (r, e) ↦
        rw (e, release)
          (record {
            distinct = delete-Distinct ref.value s.reservations v.distinct;
            held = All-delete ref.value s.reservations v.held;
            bounded =
                omega (arith, v.bounded, total-delete ref.value r s.reservations v.distinct e);
          })
  ]
