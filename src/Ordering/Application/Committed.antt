-- ===== src/Ordering/Application/Committed.antt =====
-- What a PlaceOrder that succeeds has committed: application/place_order.go over the store in memory,
-- without a synchronous sink.
use go_ddd_template.Base.{
  ◌<◌, ◌≡◌, refl, ap, sym, subst, String, Option, none, some, List, GoInt, Result, ok, err,
  Result-cases, arith, sign_bit, inl, inr,
}
use go_ddd_template.Shared.Uow.{Executor}
use go_ddd_template.Shared.Uow.Outcome.{run-Outcome, Outcome}
use go_ddd_template.Ordering.Errors.{Error, is_conflict}
use go_ddd_template.Ordering.Event.{DomainEvent}
use go_ddd_template.Ordering.Values.{OrderId}
use go_ddd_template.Ordering.Order.{Order, pull_events}
use go_ddd_template.Ordering.Ports.{ReserveLine, StockReserver}
use go_ddd_template.Ordering.Store.Unit.{World, Tx, within, memory_unit}
use go_ddd_template.Ordering.Application.{Deps, run_command, wait, confirm_reservation_message}
use go_ddd_template.Ordering.Application.PlaceAttempt.{
  IsStored, Kept, Done, check_place-version, Kept-Outcome,
}
use go_ddd_template.Ordering.Application.Place.{
  PlaceOrderInput, Made, check_place, place_command, finish, reserve_and_store, handle_checked,
  place_order,
}

-- What a use case returns, with the state that it leaves.
abbrev Placed : {W : Type 0} → Made → Order → (W → Type 0) → World W × Result Error OrderId → Type 0
Placed made o Held (w, err e) = Unit
Placed made o Held (w, ok id) =
    (id ≡ o.id)
    × IsStored o
        (confirm_reservation_message o.reservation_ref made.trace_id made.message_id (made.clock 1))
        w
    × Held w.outside

-- The input makes an order of that identifier, which is stored with the message that confirms its
-- reservation, and `Held` is true of its reference, of the lines to reserve and of what is outside.
abbrev pub IsPlaced :
    {W : Type 0}
    → (String → List ReserveLine → W → Type 0)
    → Made
    → PlaceOrderInput
    → OrderId
    → World W
    → Type 0
IsPlaced Held made input id w =
    (o : Order) × (lines : List ReserveLine) × (check_place made input ≡ ok (o, lines))
    × (id ≡ o.id)
    × IsStored o
        (confirm_reservation_message o.reservation_ref made.trace_id made.message_id (made.clock 1))
        w
    × Held o.reservation_ref.value lines w.outside

abbrev pub memory_deps :
    {W : Type 0}
    → Executor
    → StockReserver (World W)
    → (List DomainEvent → World W → World W)
    → (GoInt → World W → World W × Option Error)
    → Deps (Tx W) (World W)
memory_deps exec reserver dispatch timer = record {
  exec = exec;
  work = memory_unit none;
  reserver = reserver;
  dispatch = dispatch;
  timer = timer;
}

module _ {W : Type 0} (exec : Executor) (reserver : StockReserver (World W))
    (dispatch : List DomainEvent → World W → World W)
    (timer : GoInt → World W → World W × Option Error) (h : 0 < exec.max_attempts)
    (b : exec.max_attempts < sign_bit) (Held : String → List ReserveLine → W → Type 0)
    (reserved : (ref : String) (lines : List ReserveLine) (w : World W)
      → (reserver.reserve ref lines w).1 ≡ none
      → Held ref lines (reserver.reserve ref lines w).0.outside)
    (waits : (d : GoInt) (w : World W) (ref : String) (lines : List ReserveLine)
      → Held ref lines w.outside
      → Held ref lines (timer d w).0.outside)
    (dispatched : (events : List DomainEvent) (w : World W)
      → ((dispatch events w).orders ≡ w.orders)
        × ((dispatch events w).stores ≡ w.stores)
        × ((dispatch events w).outside ≡ w.outside)) where
  abbrev deps : Deps (Tx W) (World W)
  deps = memory_deps exec reserver dispatch timer

  finish-Placed :
      (made : Made) (o : Order) (H : W → Type 0) (P : Order × World W → Type 0) (ref : String)
      (out : (Order × World W) × Option Error)
      → (let msg =
            confirm_reservation_message o.reservation_ref made.trace_id made.message_id
              (made.clock 1) in
          Outcome P
            (λ (s : Order × World W). (s.0.id ≡ o.id) × IsStored o msg s.1 × H s.1.outside)
            out)
      → Placed made o H (finish deps ref out)
  unfolding pull_events
  finish-Placed made o H P ref ((o', w), some e) p = tt
  finish-Placed made o H P ref ((o', w), none) p =
      rw ((dispatched o'.events w).0, (dispatched o'.events w).1, (dispatched o'.events w).2) p

  stored-Placed :
      (made : Made) (o : Order) (lines : List ReserveLine) (out : World W × Option Error)
      → o.version ≡ 0
      → (out.1 ≡ none → Held o.reservation_ref.value lines out.0.outside)
      → Placed made o (Held o.reservation_ref.value lines) (reserve_and_store deps made o out)
  unfolding run_command
  stored-Placed made o lines (w, some e) fresh held = tt
  stored-Placed made o lines (w, none) fresh held =
      let ref = o.reservation_ref.value in
      let msg =
        confirm_reservation_message o.reservation_ref made.trace_id made.message_id
          (made.clock 1) in
      let body = within none (place_command (memory_unit none).repos msg) in
      finish-Placed made o (Held ref lines) (Kept o msg fresh (Held ref lines)) ref
        (run_command deps (place_command (memory_unit none).repos msg) (o, w))
        (run-Outcome is_conflict (wait deps) body exec (Kept o msg fresh (Held ref lines))
          (Done o msg fresh (Held ref lines)) (Kept-Outcome o msg fresh (Held ref lines))
          (λ d s k. (k.0, waits d s.1 ref lines k.1)) (o, w) h b (refl, held refl))

  -- What holds of an outcome that is an identifier.
  Placed-ok :
      (made : Made) (o : Order) (H : W → Type 0) (out : World W × Result Error OrderId)
      (id : OrderId)
      → Placed made o H out
      → out.1 ≡ ok id
      → (id ≡ o.id)
        × IsStored o
            (confirm_reservation_message o.reservation_ref made.trace_id made.message_id
              (made.clock 1))
            out.0
        × H out.0.outside
  Placed-ok made o H (w, err e) id p e' = absurd (ground (arith, e'))
  Placed-ok made o H (w, ok id') id p e = (ground (arith, e, p.0), p.1, p.2)

  -- Over the store in memory without a synchronous sink, with an executor of at least one and fewer
  -- than 2 ^ 63 attempts: let `Held` be what a Reserve that succeeds makes true of the state
  -- outside, which a wait keeps, and let the dispatcher change neither the orders, the messages nor
  -- that state. A PlaceOrder that returns an identifier has committed the order of that identifier,
  -- which its input makes, together with the message that confirms its reservation, and `Held` is
  -- true of its reference and lines.
  pub place_order_commits :
      (made : Made) (input : PlaceOrderInput) (w : World W) (id : OrderId)
      → let out = place_order deps made input w in out.1 ≡ ok id → IsPlaced Held made input id out.0
  unfolding place_order
  place_order_commits made input w id succeeded = elim (Result-cases (check_place made input)) [
    | inl ((o, lines), e) ↦
        let ref = o.reservation_ref.value in
        let same : place_order deps made input w
            ≡ reserve_and_store deps made o (reserver.reserve ref lines w) =
          ap
            (λ (checked : Result Error (Order × List ReserveLine)).
              handle_checked deps made checked w)
            e in
        let placed =
          stored-Placed made o lines (reserver.reserve ref lines w)
            (check_place-version made input o lines e) (reserved ref lines w) in
        let all =
          Placed-ok made o (Held ref lines) (place_order deps made input w) id
            (subst (Placed made o (Held ref lines)) (sym same) placed) succeeded in
        (o, lines, e, all.0, all.1, all.2)
    | inr (failure, e) ↦ absurd (ground (arith, succeeded, e))
  ]
