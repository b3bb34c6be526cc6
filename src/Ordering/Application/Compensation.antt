-- ===== src/Ordering/Application/Compensation.antt =====
-- How a PlaceOrder that fails ends: place_order.go of contexts/ordering/internal/application. The
-- compensating Release is a best effort: the program only logs its error, and the time of the reservation
-- ends what it has left.
use go_ddd_template.Base.{
  ◌≡◌, refl, subst, String, Option, none, some, List, [], ◌∷◌, Result, ok, err, ◌>>=◌, ◌⊎◌, ap,
  map_err, trim_space, is_empty, Clock, Bool-cases, inl, inr,
}
use go_ddd_template.Ordering.Errors.{Error}
use go_ddd_template.Ordering.Validation.{locate}
use go_ddd_template.Ordering.Values.{OrderId, CustomerId, new_order_id, new_customer_id}
use go_ddd_template.Ordering.Order.{OrderLine, Order, new_order, placed, sum_lines}
use go_ddd_template.Ordering.Money.{Money, zero_money}
use go_ddd_template.Ordering.Ports.{ReserveLine}
use go_ddd_template.Ordering.Application.{confirm_reservation_message, Deps, run_command}
use go_ddd_template.Ordering.Application.Place.{
  PlaceOrderInput, Made, to_order_lines, check_place, place_command, finish, reserve_and_store,
  handle_checked, place_order,
}

-- The order of a successful check has the reference that its identifier gives.
abbrev HasRef : String → Result Error (Order × List ReserveLine) → Type 0
HasRef ref (err e) = Unit
HasRef ref (ok (o, lines)) = o.reservation_ref.value ≡ ref

bind-HasRef {κ} :
    {A : Type κ} (ref : String) (r : Result Error A)
    (f : A → Result Error (Order × List ReserveLine))
    → ((a : A) → HasRef ref (f a))
    → HasRef ref (r >>= f)
bind-HasRef ref (ok a) f h = h a
bind-HasRef ref (err e) f h = tt

total-HasRef :
    (clk : Clock) (id : OrderId) (customer : CustomerId) (lines : List OrderLine)
    (reserve_lines : List ReserveLine) (total : Result Error Money)
    → HasRef id.value (
        map_err (locate "") (total >>= λ t. ok (placed clk id customer lines t)) >>= λ o.
        ok (o, reserve_lines))
unfolding placed
total-HasRef clk id customer lines reserve_lines (ok t) = refl
total-HasRef clk id customer lines reserve_lines (err e) = tt

new_order-HasRef :
    (clk : Clock) (id : OrderId) (customer : CustomerId) (lines : List OrderLine)
    (reserve_lines : List ReserveLine)
    → HasRef id.value
        (map_err (locate "") (new_order clk id customer lines) >>= λ o. ok (o, reserve_lines))
unfolding new_order
new_order-HasRef clk id customer [] reserve_lines = tt
new_order-HasRef clk id customer (l ∷ lines) reserve_lines =
    total-HasRef clk id customer (l ∷ lines) reserve_lines (sum_lines zero_money (l ∷ lines))

identified-HasRef :
    (made : Made) (customer : CustomerId) (lines : List OrderLine)
    (reserve_lines : List ReserveLine)
    → HasRef (trim_space made.order_id) (
        new_order_id made.order_id >>= λ id.
        map_err (locate "") (new_order made.clock id customer lines) >>= λ o. ok (o, reserve_lines))
unfolding new_order_id
identified-HasRef made customer lines reserve_lines =
    elim (Bool-cases (is_empty (trim_space made.order_id))) [
      | inl e ↦ rw e tt
      | inr e ↦ rw e (
          new_order-HasRef made.clock (record { value = trim_space made.order_id }) customer lines
            reserve_lines)
    ]

check_place-HasRef :
    (made : Made) (input : PlaceOrderInput)
    → HasRef (trim_space made.order_id) (check_place made input)
unfolding check_place
check_place-HasRef made input =
    let ref = trim_space made.order_id in
    bind-HasRef ref (map_err (locate "") (new_customer_id input.customer_id)) _ (λ customer.
      bind-HasRef ref (to_order_lines 0 input.lines) _
        (λ out. identified-HasRef made customer out.0 out.1))

module _ {T S : Type 0} (deps : Deps T S) (made : Made) (input : PlaceOrderInput) (s : S)
    (e : Error) where
  abbrev pub reserved : Order → List ReserveLine → S × Option Error
  reserved o lines = deps.reserver.reserve o.reservation_ref.value lines s

  -- The order and its message stored, after the Reserve.
  abbrev pub stored : Order → List ReserveLine → (Order × S) × Option Error
  stored o lines =
      let confirm =
        confirm_reservation_message o.reservation_ref made.trace_id made.message_id
          (made.clock 1) in
      run_command deps (place_command deps.work.repos confirm) (o, (reserved o lines).0)

  -- Reserve has failed, or storing has failed and Release was called on what it left.
  abbrev pub IsUndone : Order → List ReserveLine → S → Type 0
  IsUndone o lines final =
      (reserved o lines ≡ (final, some e))
      ⊎ (((reserved o lines).1 ≡ none)
          × ((stored o lines).1 ≡ some e)
          × (final ≡ (deps.reserver.release o.reservation_ref.value (stored o lines).0.1).0))

  abbrev pub IsCompensated : S → Type 0
  IsCompensated final =
      ((check_place made input ≡ err e) × (final ≡ s))
      ⊎ ((o : Order) × (lines : List ReserveLine) × (check_place made input ≡ ok (o, lines))
          × (o.reservation_ref.value ≡ trim_space made.order_id)
          × IsUndone o lines final)

  finish-IsUndone :
      (o : Order) (lines : List ReserveLine) (out : (Order × S) × Option Error)
      → (reserved o lines).1 ≡ none
      → stored o lines ≡ out
      → (finish deps o.reservation_ref.value out).1 ≡ err e
      → IsUndone o lines (finish deps o.reservation_ref.value out).0
  finish-IsUndone o lines ((o', s'), some e') r f h = inr (r, cc, cc)
  finish-IsUndone o lines ((o', s'), none) r f h = absurd cc

  reserved-IsUndone :
      (o : Order) (lines : List ReserveLine) (out : S × Option Error)
      → reserved o lines ≡ out
      → (reserve_and_store deps made o out).1 ≡ err e
      → IsUndone o lines (reserve_and_store deps made o out).0
  reserved-IsUndone o lines (s', some e') r h = inl cc
  reserved-IsUndone o lines (s', none) r h =
      let run : S → (Order × S) × Option Error = λ k.
        run_command deps
          (place_command deps.work.repos (
            confirm_reservation_message o.reservation_ref made.trace_id made.message_id
              (made.clock 1)))
          (o, k) in
      let ends : S → S × Result Error OrderId = λ k. finish deps o.reservation_ref.value (run k) in
      subst (λ k. (ends k).1 ≡ err e → IsUndone o lines (ends k).0) (ap (λ x. x.0) r)
        (finish-IsUndone o lines (stored o lines) (ap (λ x. x.1) r) refl) h

  checked-IsCompensated :
      (checked : Result Error (Order × List ReserveLine))
      → check_place made input ≡ checked
      → HasRef (trim_space made.order_id) checked
      → (handle_checked deps made checked s).1 ≡ err e
      → IsCompensated (handle_checked deps made checked s).0
  checked-IsCompensated (err e') c r h = inl (cc, refl)
  checked-IsCompensated (ok (o, lines)) c r h =
      inr (o, lines, c, r, reserved-IsUndone o lines (reserved o lines) refl h)

  -- A PlaceOrder that returns an error ends in one of three ways. Its input was refused, and
  -- nothing has happened. Or Reserve, under the trimmed identifier of the order, has failed with
  -- that error, and what it left is what is left. Or Reserve has succeeded, storing the order and
  -- its message has failed with that error, and the end is what Release of that same reference
  -- leaves of it, whether or not that Release succeeds.
  pub place_order_compensates :
      (place_order deps made input s).1 ≡ err e → IsCompensated (place_order deps made input s).0
  unfolding place_order
  place_order_compensates h =
      checked-IsCompensated (check_place made input) refl (check_place-HasRef made input) h
