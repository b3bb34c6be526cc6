-- ===== src/Ordering/Application/PlaceAttempt.antt =====
-- What an attempt of the closure of PlaceOrder commits: application/place_order.go over the store in
-- memory, without a synchronous sink.
use go_ddd_template.Base.{
  ◌≡◌, refl, ◌∙◌, sym, subst, Option, none, some, List, [], ◌∷◌, Elem, Elem-last, Clock, ok,
  map_err, bind-eq-ok, map_err-eq-ok, Option-cases, arith, inl, inr, eq_refl,
}
use go_ddd_template.Base.Dict.{lookup, lookup-insert}
use go_ddd_template.Shared.Rows.{stage, apply_group}
use go_ddd_template.Shared.Uow.Outcome.{Outcome}
use go_ddd_template.Shared.Outbox.{Message}
use go_ddd_template.Shared.Outbox.Drain.{commit_staged-append}
use go_ddd_template.Ordering.Errors.{Error, wrapped, concurrency_conflict}
use go_ddd_template.Ordering.Validation.{locate}
use go_ddd_template.Ordering.Values.{OrderId, CustomerId, new_order_id, new_customer_id}
use go_ddd_template.Ordering.Order.{OrderLine, Order, new_order, placed, sum_lines, mark_persisted}
use go_ddd_template.Ordering.Money.{zero_money}
use go_ddd_template.Ordering.Ports.{ReserveLine}
use go_ddd_template.Ordering.Store.{OrderRow, order_to_order_row}
use go_ddd_template.Ordering.Store.Unit.{
  World, begin, commit, within, memory_unit, save_order, next_version, deliver_sync,
}
use go_ddd_template.Ordering.Application.Place.{
  PlaceOrderInput, Made, to_order_lines, check_place, place_command,
}

new_order-version :
    (clk : Clock) (id : OrderId) (customer : CustomerId) (lines : List OrderLine) (o : Order)
    → new_order clk id customer lines ≡ ok o
    → o.version ≡ 0
unfolding new_order placed
new_order-version clk id customer [] o h = absurd (ground (arith, h))
new_order-version clk id customer (l ∷ lines) o h =
    let (total, e, f) = bind-eq-ok (sum_lines zero_money (l ∷ lines)) _ o h in ground (arith, f)

-- An order that PlaceOrder makes is new.
pub check_place-version :
    (made : Made) (input : PlaceOrderInput) (o : Order) (lines : List ReserveLine)
    → check_place made input ≡ ok (o, lines)
    → o.version ≡ 0
unfolding check_place
check_place-version made input o lines h =
    let (customer, e, h1) =
      bind-eq-ok (map_err (locate "") (new_customer_id input.customer_id)) _ _ h in
    let (out, e1, h2) = bind-eq-ok (to_order_lines 0 input.lines) _ _ h1 in
    let (id, e2, h3) = bind-eq-ok (new_order_id made.order_id) _ _ h2 in
    let (o', e3, h4) =
      bind-eq-ok (map_err (locate "") (new_order made.clock id customer out.0)) _ _ h3 in
    let made_new = map_err-eq-ok (locate "") (new_order made.clock id customer out.0) o' e3 in
    new_order-version made.clock id customer out.0 o (made_new ∙ ground (arith, h4))

-- The order's row, and the message in the queue and in the log.
abbrev pub IsStored : {W : Type 0} → Order → Message → World W → Type 0
IsStored o msg w =
    (lookup o.id.value w.orders ≡ some (order_to_order_row o 1))
    × Elem msg w.stores.queue
    × Elem msg w.stores.log

module _ {W : Type 0} (o : Order) (msg : Message) (fresh : o.version ≡ 0) (Held : W → Type 0) where
  -- What an attempt leaves: an order that is still new where it fails.
  abbrev pub Kept : Order × World W → Type 0
  Kept s = (s.0 ≡ o) × Held s.1.outside

  abbrev pub Done : Order × World W → Type 0
  Done s = (s.0.id ≡ o.id) × IsStored o msg s.1 × Held s.1.outside

  stored :
      (w : World W)
      → IsStored o msg (
          commit none (record (begin none w) {
            staged_orders = stage o.id.value (order_to_order_row o 1) [];
            staged_msgs = msg ∷ [];
          }))
  unfolding commit apply_group stage
  stored w = rw (commit_staged-append (msg ∷ []) w.stores) (
    ground (
      arith,
      eq_refl o.id.value,
      lookup-insert o.id.value o.id.value (order_to_order_row o 1) w.orders,
    ),
    Elem-last msg w.stores.queue,
    Elem-last msg w.stores.log,
  )

  abbrev attempt : World W → (Order × World W) × Option Error
  attempt w = within none (place_command (memory_unit none).repos msg) (o, w)

  attempt_taken :
      (w : World W) (row : OrderRow)
      → lookup o.id.value w.orders ≡ some row
      → attempt w ≡ ((o, w), some (wrapped concurrency_conflict))
  unfolding within place_command save_order next_version
  attempt_taken w row e = ground (arith, fresh, e)

  attempt_new :
      (w : World W)
      → lookup o.id.value w.orders ≡ none
      → attempt w ≡ (
        (
          mark_persisted 1 o,
          commit none (record (begin none w) {
            staged_orders = stage o.id.value (order_to_order_row o 1) [];
            staged_msgs = msg ∷ [];
          }),
        ),
        none,
      )
  unfolding within place_command save_order next_version deliver_sync
  attempt_new w e = ground (arith, fresh, e)

  attempt-Outcome : (w : World W) → Held w.outside → Outcome Kept Done (attempt w)
  unfolding mark_persisted commit
  attempt-Outcome w held = elim (Option-cases (lookup o.id.value w.orders)) [
    | inl e ↦ subst (Outcome Kept Done) (sym (attempt_new w e)) (refl, stored w, held)
    | inr (row, e) ↦ subst (Outcome Kept Done) (sym (attempt_taken w row e)) (refl, held)
  ]

  pub Kept-Outcome :
      (s : Order × World W)
      → Kept s
      → Outcome Kept Done (within none (place_command (memory_unit none).repos msg) s)
  Kept-Outcome (o', w) (e, held) =
      subst
        (λ x. Outcome Kept Done (within none (place_command (memory_unit none).repos msg) (x, w)))
        (sym e) (attempt-Outcome w held)
