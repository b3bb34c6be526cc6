-- ===== src/Inventory/Application.antt =====
-- The use cases of the inventory context: application/*.go. `T` is the state inside a transaction and
-- `S` the state around it, as in Ports. An input that is refused, and an error of the run, are the
-- error that the use case returns; logging is left out.
pub mod Commands
pub mod UseCases
pub mod Stock
pub mod Subscriber
pub mod Rollback
pub mod ReserveCommit
pub mod Reserved
use go_ddd_template.Base.{
  ℕ, suc, String, Option, none, some, List, [], ◌∷◌, ◌++◌, GoInt, Clock, Result, ok, err, ◌>>=◌,
  map_err,
}
use go_ddd_template.Shared.Uow.{Executor, run}
use go_ddd_template.Inventory.Errors.{Error, is_conflict}
use go_ddd_template.Inventory.Event.{DomainEvent}
use go_ddd_template.Inventory.StockItem.{StockItem, pull_events}
use go_ddd_template.Inventory.Ports.{UnitOfWork}

-- The result of a use case that only succeeds or fails.
abbrev pub Done : Type 0
Done = Unit

-- What a use case is made with: the executor, the unit of work, the dispatcher; and the timer that
-- the back-off waits on.
pub record Deps (T S : Type 0) : Type 1 where
  pub exec : Executor
  pub work : UnitOfWork T S
  pub dispatch : List DomainEvent → S → S
  pub timer : GoInt → S → S × Option Error

-- What an attempt reads: the clock, and what id.New makes.
pub record Attempt : Type 0 where
  pub clock : Clock
  pub id : String

-- The variables that a closure writes, with the events of the last attempt. `attempts n` is what the
-- `n`-th attempt from now reads.
pub record Vars (R : Type 0) : Type 0 where
  pub attempts : ℕ → Attempt
  pub events : List DomainEvent
  pub result : R

-- The loop of collectEvents: the items without their events, and all events in order.
unfoldable pub collect_events : List StockItem → List StockItem × List DomainEvent
unfolding pull_events
collect_events [] = ([], [])
collect_events (it ∷ items) =
    let (it', events) = pull_events it in
    let (items', rest) = collect_events items in (it' ∷ items', events ++ rest)

module _ {T S R : Type 0} (deps : Deps T S) where
  -- The timer, which leaves the variables alone.
  abbrev pub wait : GoInt → Vars R × S → (Vars R × S) × Option Error
  wait d (vars, s) = let (s', failure) = deps.timer d s in ((vars, s'), failure)

  -- uow.Run on a command of the use case.
  unfoldable pub run_command :
      (Vars R × T → (Vars R × T) × Option Error) → Vars R × S → (Vars R × S) × Option Error
  unfolding run is_conflict
  run_command command = run is_conflict wait (deps.work.within command) deps.exec

  -- The end of a use case: its events are dispatched on success.
  abbrev pub answer : (Vars R × S) × Option Error → S × Result Error R
  answer ((vars, s), some e) = (s, err e)
  answer ((vars, s), none) = (deps.dispatch vars.events s, ok vars.result)

  unfoldable pub run_and_dispatch :
      (Vars R × T → (Vars R × T) × Option Error) → Vars R → S → S × Result Error R
  unfolding run_command
  run_and_dispatch command vars s = answer (run_command command (vars, s))

-- A use case: the early return on an input that is refused, and else the command.
abbrev pub run_checked :
    {T S A R : Type 0}
    → Deps T S
    → (A → Vars R × T → (Vars R × T) × Option Error)
    → Vars R
    → Result Error A
    → S
    → S × Result Error R
run_checked deps command vars (err e) s = (s, err e)
run_checked deps command vars (ok a) s = run_and_dispatch deps (command a) vars s
