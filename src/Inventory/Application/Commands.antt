-- ===== src/Inventory/Application/Commands.antt =====
-- The commands on reservations: reserve.go, confirm.go, release.go and reaper.go.
use go_ddd_template.Base.{
  ℕ, suc, String, Option, none, some, List, [], ◌∷◌, ◌++◌, GoInt, Time, Duration, Clock, Result, ok,
  err, ◌>>=◌, map_err, after,
}
use go_ddd_template.Inventory.Errors.{Error, sentinel, reservation_not_found}
use go_ddd_template.Inventory.Event.{DomainEvent}
use go_ddd_template.Inventory.Values.{Sku, ReservationRef, new_sku, new_quantity}
use go_ddd_template.Inventory.StockItem.{StockItem, confirm, release, reap_expired}
use go_ddd_template.Inventory.ReservationService.{ReservationLine, allocate}
use go_ddd_template.Inventory.Validation.{locate, line_path}
use go_ddd_template.Inventory.Ports.{StockStore}
use go_ddd_template.Inventory.Application.{Done, Vars, collect_events}

pub record ReserveLine : Type 0 where
  pub sku : String
  pub quantity : GoInt

pub record ReserveInput : Type 0 where
  pub ref : String
  pub lines : List ReserveLine

-- The loop of toReservationLines from line `i` on.
unfoldable pub to_reservation_lines :
    ℕ → List ReserveLine → Result Error (List ReservationLine × List Sku)
unfolding new_sku new_quantity locate line_path
to_reservation_lines i [] = ok ([], [])
to_reservation_lines i (l ∷ rest) = map_err (locate (line_path i)) (new_sku l.sku) >>= λ sku.
    map_err (locate (line_path i)) (new_quantity l.quantity) >>= λ qty.
    to_reservation_lines (suc i) rest >>= λ out.
    ok (record { sku = sku; quantity = qty } ∷ out.0, sku ∷ out.1)

abbrev pub Command : Type 0 → Type 0
Command T = Vars Done × T → (Vars Done × T) × Option Error

-- The variables of the next attempt.
abbrev pub next_vars : {R : Type 0} → Vars R → Vars R
next_vars vars = record vars { attempts = λ n. vars.attempts (suc n) }

module _ {T : Type 0} (store : StockStore T) where
  -- Save, and the events of the aggregates if it succeeds.
  unfoldable pub save_and_collect : List StockItem → Command T
  unfolding collect_events
  save_and_collect stocks (vars, tx) =
      let (tx', stocks', failure) = store.save stocks tx in
      elim failure [
        | some e ↦ ((vars, tx'), some e)
        | none ↦ ((record vars { events = (collect_events stocks').1 }, tx'), none)
      ]

  -- The closure of Reserver.Reserve.
  unfoldable pub reserve_command :
      ReservationRef → List ReservationLine → List Sku → Duration → Command T
  unfolding allocate locate
  reserve_command ref lines skus ttl (vars, tx) =
      let (tx', loaded) = store.load_many skus tx in
      let vars' = next_vars vars in
      elim loaded [
        | err e ↦ ((vars', tx'), some e)
        | ok stocks ↦
            let (stocks', refused) = allocate (vars.attempts 0).clock stocks ref lines ttl in
            elim refused [
              | some e ↦ ((vars', tx'), some (locate "" e))
              | none ↦ save_and_collect stocks' (vars', tx')
            ]
      ]

  -- The loop over the aggregates: a method on each, until one fails.
  unfoldable pub each_item :
      (Clock → StockItem → StockItem × Option Error)
      → Clock
      → List StockItem
      → List StockItem × Option Error
  each_item method clk [] = ([], none)
  each_item method clk (s ∷ stocks) =
      let (s', failure) = method clk s in
      let (stocks', later) = each_item method (after 1 clk) stocks in
      elim failure [ some e ↦ (s' ∷ stocks, some e) | none ↦ (s' ∷ stocks', later) ]

  -- The closure of Confirmer.Confirm.
  unfoldable pub confirm_command : ReservationRef → Command T
  unfolding confirm
  confirm_command ref (vars, tx) =
      let (tx', loaded) = store.load_by_reservation ref tx in
      let vars' = next_vars vars in
      elim loaded [
        | err e ↦ ((vars', tx'), some e)
        | ok [] ↦ ((vars', tx'), some (sentinel reservation_not_found))
        | ok (s ∷ stocks) ↦
            let (stocks', refused) =
              each_item (λ clk. confirm clk ref) (vars.attempts 0).clock (s ∷ stocks) in
            elim refused [
              | some e ↦ ((vars', tx'), some e)
              | none ↦ save_and_collect stocks' (vars', tx')
            ]
      ]

  -- The closure of Releaser.Release.
  unfoldable pub release_command : ReservationRef → Command T
  unfolding release
  release_command ref (vars, tx) =
      let (tx', loaded) = store.load_by_reservation ref tx in
      let vars' = next_vars vars in
      elim loaded [
        | err e ↦ ((vars', tx'), some e)
        | ok stocks ↦
            let (stocks', refused) =
              each_item (λ clk. release clk ref) (vars.attempts 0).clock stocks in
            elim refused [
              | some e ↦ ((vars', tx'), some e)
              | none ↦ save_and_collect stocks' (vars', tx')
            ]
      ]

  -- The loop of Sweep: the aggregates that it leaves and the events.
  unfoldable pub reap_all : Time → List StockItem → List StockItem × List DomainEvent
  unfolding reap_expired
  reap_all now [] = ([], [])
  reap_all now (s ∷ stocks) =
      let (s', events) = reap_expired now s in
      let (stocks', rest) = reap_all now stocks in (s' ∷ stocks', events ++ rest)

  -- The closure of Reaper.Sweep, whose events are those of the last attempt, kept even if Save fails.
  unfoldable pub sweep_command : Time → GoInt → Command T
  unfolding reap_all
  sweep_command now batch (vars, tx) =
      let (tx', loaded) = store.load_expired_pending now batch tx in
      let vars' = record vars { events = [] } in
      elim loaded [
        | err e ↦ ((vars', tx'), some e)
        | ok expired ↦
            let (expired', events) = reap_all now expired in
            let (tx'', saved, failure) = store.save expired' tx' in
            ((record vars { events = events }, tx''), failure)
      ]
