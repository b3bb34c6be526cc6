-- ===== src/Inventory/StockItem/Commands.antt =====
-- What Reserve, Confirm and Release answer, when they do nothing, and how they undo one another.
use go_ddd_template.Base.{
  ◌+◌, ◌<◌, ◌≤◌, ◌≡◌, refl, sym, ap, String, true, false, ◌&&◌, leb, ltb, Option, none, some, arith,
  sign_bit, Time, Duration, Clock, if◌then◌else◌, Option-cases, Bool-cases, ◌∙◌, inl, inr, eq_iff,
  eq_refl, str_eq, is_negative,
}
use go_ddd_template.Base.Dict.{lookup, lookup-insert, lookup-delete, delete-insert}
use go_ddd_template.Inventory.Errors.{
  Error, sentinel, wrapped, violated, v_quantity, v_reservation_ref, insufficient_stock,
  reservation_not_found,
}
use go_ddd_template.Inventory.Values.{Quantity, ReservationRef, IsQuantity, ref_is_zero}
use go_ddd_template.Inventory.Reservation.{Reservation, is_confirmed, is_pending}
use go_ddd_template.Inventory.StockItem.{
  StockItem, replenish, reserve, confirm, release, reap_expired, has_reservation,
  pending_reservation, confirmed_reservation, is_reapable,
}
use go_ddd_template.Inventory.StockItem.Invariant.{IsValid}
use go_ddd_template.Inventory.StockItem.Reap.{lookup-reap_expired}

-- The answer of Reserve by the four rules of its comment, in their order.
abbrev pub reserve_answer : ReservationRef → Quantity → StockItem → Option Error
reserve_answer ref qty s =
    if ref_is_zero ref
    then some (violated v_reservation_ref)
    else if leb qty.value 0
    then some (violated v_quantity)
    else if has_reservation ref s
    then none
    else if leb qty.value s.available.value
    then none
    else some (wrapped (sentinel insufficient_stock))

module _ (clk : Clock) (ref : ReservationRef) (qty : Quantity) (ttl : Duration) (s : StockItem)
    (v : IsValid s) (q : IsQuantity qty) where
  -- On a valid item, with a quantity that NewQuantity makes, Reserve answers by the rules of its
  -- comment in their order: an empty reference, a zero quantity, a reference that is held already,
  -- enough free stock, too little.
  pub reserve_answer_lem : (reserve clk ref qty ttl s).1 ≡ reserve_answer ref qty s
  unfolding reserve has_reservation
  reserve_answer_lem = ground (arith, v.bounded)

  -- On a valid item, with a quantity that NewQuantity makes, a Reserve that fails changes nothing.
  pub reserve_fails :
      (e : Error) → (reserve clk ref qty ttl s).1 ≡ some e → (reserve clk ref qty ttl s).0 ≡ s
  unfolding reserve
  reserve_fails e h = ground (arith, v.bounded)

  -- On a valid item without the reference, with a quantity that NewQuantity makes, a Reserve that
  -- succeeds takes the quantity from the free stock and holds it as pending until `ttl` after the
  -- first reading of the clock; every other reference keeps what it has.
  pub reserve_holds :
      (key : String)
      → lookup ref.value s.reservations ≡ none
      → (reserve clk ref qty ttl s).1 ≡ none
      → ((reserve clk ref qty ttl s).0.available.value + qty.value ≡ s.available.value)
        × (lookup key (reserve clk ref qty ttl s).0.reservations ≡ (
            if str_eq ref.value key
            then some (pending_reservation (clk 0) ref qty ttl)
            else lookup key s.reservations))
  unfolding reserve
  reserve_holds key free h = ground (
    arith,
    v.bounded,
    lookup-insert ref.value key (pending_reservation (clk 0) ref qty ttl) s.reservations,
  )

  -- After a Reserve that succeeds the item has the reference.
  pub reserve-has_reservation :
      (reserve clk ref qty ttl s).1 ≡ none
      → has_reservation ref (reserve clk ref qty ttl s).0 ≡ true
  unfolding reserve has_reservation
  reserve-has_reservation h = ground (
    arith,
    eq_refl ref.value,
    lookup-insert ref.value ref.value (pending_reservation (clk 0) ref qty ttl) s.reservations,
  )

  -- On a valid item without the reference, with a quantity that NewQuantity makes, Release undoes a
  -- Reserve that succeeds: the same free stock, the same reservations, and no error.
  pub release-reserve :
      (clk' : Clock)
      → lookup ref.value s.reservations ≡ none
      → (reserve clk ref qty ttl s).1 ≡ none
      → ((release clk' ref (reserve clk ref qty ttl s).0).0.available ≡ s.available)
        × ((release clk' ref (reserve clk ref qty ttl s).0).0.reservations ≡ s.reservations)
        × ((release clk' ref (reserve clk ref qty ttl s).0).1 ≡ none)
  unfolding reserve release
  release-reserve clk' free h = ground (
    arith,
    v.bounded,
    eq_refl ref.value,
    lookup-insert ref.value ref.value (pending_reservation (clk 0) ref qty ttl) s.reservations,
    delete-insert ref.value (pending_reservation (clk 0) ref qty ttl) s.reservations free,
  )

-- A second Reserve under a reference that is held does nothing and succeeds, whatever it asks for.
pub reserve_again :
    (clk : Clock) (ref : ReservationRef) (qty : Quantity) (ttl : Duration) (s : StockItem)
    → ref_is_zero ref ≡ false
    → 0 < qty.value
    → has_reservation ref s ≡ true
    → reserve clk ref qty ttl s ≡ (s, none)
unfolding reserve has_reservation
reserve_again clk ref qty ttl s h p held = ground arith

module _ (clk : Clock) (ref : ReservationRef) (s : StockItem) where
  -- Confirm answers by whether the item has the reference.
  pub confirm_answer :
      (confirm clk ref s).1
      ≡ (if has_reservation ref s then none else some (wrapped (sentinel reservation_not_found)))
  unfolding confirm has_reservation
  confirm_answer = ground arith

  confirm_missing :
      lookup ref.value s.reservations ≡ none
      → confirm clk ref s ≡ (s, some (wrapped (sentinel reservation_not_found)))
  unfolding confirm
  confirm_missing h = ground arith

  confirm_done :
      (r : Reservation)
      → lookup ref.value s.reservations ≡ some r
      → is_confirmed r.status ≡ true
      → confirm clk ref s ≡ (s, none)
  unfolding confirm
  confirm_done r h c = ground arith

  confirm_found :
      (r : Reservation) → lookup ref.value s.reservations ≡ some r → (confirm clk ref s).1 ≡ none
  unfolding confirm
  confirm_found r h = ground arith

  release_missing : lookup ref.value s.reservations ≡ none → release clk ref s ≡ (s, none)
  unfolding release
  release_missing h = ground arith

  -- What stands under each reference after a Release.
  pub lookup-release :
      (key : String)
      → lookup key (release clk ref s).0.reservations
        ≡ (if str_eq ref.value key then none else lookup key s.reservations)
  unfolding release
  lookup-release key =
      ground (arith, eq_iff ref.value key, lookup-delete ref.value key s.reservations)

  -- A reservation of the reference is confirmed by Confirm.
  lookup-confirm :
      (r : Reservation)
      → lookup ref.value s.reservations ≡ some r
      → (r' : Reservation) × (lookup ref.value (confirm clk ref s).0.reservations ≡ some r')
        × (is_confirmed r'.status ≡ true)
  unfolding confirm
  lookup-confirm r h = elim (Bool-cases (is_confirmed r.status)) [
    | inl y ↦ (r, ground arith, y)
    | inr n ↦ (
      confirmed_reservation r,
      ground (
        arith,
        eq_refl ref.value,
        lookup-insert ref.value ref.value (confirmed_reservation r) s.reservations,
      ),
      refl,
    )
  ]

module _ (clk clk' : Clock) (ref : ReservationRef) (s : StockItem) where
  -- Confirm, then Confirm: the second changes nothing and gives the same answer.
  pub confirm_twice :
      confirm clk' ref (confirm clk ref s).0 ≡ ((confirm clk ref s).0, (confirm clk ref s).1)
  confirm_twice = elim (Option-cases (lookup ref.value s.reservations)) [
    | inl e ↦ rw (confirm_missing clk ref s e) (confirm_missing clk' ref s e)
    | inr (r, e) ↦
        let (r', e', c) = lookup-confirm clk ref s r e in
        rw (confirm_done clk' ref (confirm clk ref s).0 r' e' c)
          (ap (λ e. ((confirm clk ref s).0, e)) (sym (confirm_found clk ref s r e)))
  ]

  -- Release, then Release: the second changes nothing, and both succeed.
  pub release_twice :
      (release clk' ref (release clk ref s).0 ≡ ((release clk ref s).0, none))
      × ((release clk ref s).1 ≡ none)
  release_twice = (
    release_missing clk' ref (release clk ref s).0
        (lookup-release clk ref s ref.value ∙ rw (eq_refl ref.value)),
    (unfold release in ground arith),
  )

-- A sweep of a valid item takes a reservation exactly where it is pending and its time, which is
-- not the zero time, has come. Every other reservation, each confirmed one among them, stays as it
-- is.
pub reap_expired_fate :
    (now : Time) (s : StockItem) (key : String) (r : Reservation)
    → IsValid s
    → lookup key s.reservations ≡ some r
    → lookup key (reap_expired now s).0.reservations
      ≡ (if is_pending r.status && ltb 0 r.expires_at && leb r.expires_at now then none else some r)
unfolding is_reapable
reap_expired_fate now s key r v h = ground (arith, lookup-reap_expired now s v key)

-- If an item has the reference and is valid after Confirm, the reservation outlives a sweep at any
-- time: confirmed stock does not expire.
pub reap_expired-confirm :
    (clk : Clock) (now : Time) (ref : ReservationRef) (s : StockItem)
    → IsValid (confirm clk ref s).0
    → has_reservation ref s ≡ true
    → has_reservation ref (reap_expired now (confirm clk ref s).0).0 ≡ true
unfolding has_reservation
reap_expired-confirm clk now ref s w h = elim (Option-cases (lookup ref.value s.reservations)) [
  | inl e ↦ ground arith
  | inr (r, e) ↦
      let (r', e', c) = lookup-confirm clk ref s r e in
      ground (arith, reap_expired_fate now (confirm clk ref s).0 ref.value r' w e')
]

-- On a valid item, a replenishment with a quantity that NewQuantity makes and that takes the free
-- stock past 2 ^ 63 - 1 leaves it negative, and Replenish reports no error.
pub replenish_overflows :
    (clk : Clock) (qty : Quantity) (s : StockItem)
    → IsValid s
    → IsQuantity qty
    → sign_bit ≤ s.available.value + qty.value
    → (is_negative (replenish clk qty s).0.available.value ≡ true)
      × ((replenish clk qty s).1 ≡ none)
unfolding replenish
replenish_overflows clk qty s v q h = ground (arith, v.bounded)
