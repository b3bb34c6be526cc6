-- ===== src/Inventory/Application/Rollback.antt =====
-- Use cases over the store in memory: one that returns an error commits nothing.
use go_ddd_template.Base.{
  ℕ, ◌<◌, ◌≡◌, sym, subst, String, Option, none, some, List, [], GoInt, Time, Duration, sign_bit,
  Result, ok, err, arith,
}
use go_ddd_template.Shared.Uow.{Executor}
use go_ddd_template.Shared.Uow.Outcome.{run-Outcome, Outcome}
use go_ddd_template.Inventory.Errors.{Error, is_conflict}
use go_ddd_template.Inventory.Event.{DomainEvent}
use go_ddd_template.Inventory.Values.{Quantity, Sku, ReservationRef}
use go_ddd_template.Inventory.ReservationService.{ReservationLine}
use go_ddd_template.Inventory.Store.Unit.{World, Tx, begin, finish, within, memory_unit, tx_stock}
use go_ddd_template.Inventory.Application.{
  Attempt, Deps, Vars, Done, answer, run_checked, wait, run_command, run_and_dispatch,
}
use go_ddd_template.Inventory.Application.Commands.{
  ReserveInput, save_and_collect, reserve_command, confirm_command, release_command, sweep_command,
}
use go_ddd_template.Inventory.Application.UseCases.{
  reserve_use_case, confirm_use_case, release_use_case, check_reserve, check_ref,
}
use go_ddd_template.Inventory.Application.Stock.{
  ReplenishInput, replenish_command, replenish_use_case, check_replenish, no_result,
}

-- A command stages and does not write.
abbrev Stages : {R : Type 0} → (Vars R × Tx → (Vars R × Tx) × Option Error) → Type 0
Stages {R} command = (vars : Vars R) (tx : Tx) → (command (vars, tx)).0.1.world ≡ tx.world

reserve-Stages :
    (ref : ReservationRef) (lines : List ReservationLine) (skus : List Sku) (ttl : Duration)
    → Stages (reserve_command tx_stock ref lines skus ttl)
unfolding reserve_command save_and_collect
reserve-Stages ref lines skus ttl vars tx = ground arith

confirm-Stages : (ref : ReservationRef) → Stages (confirm_command tx_stock ref)
unfolding confirm_command save_and_collect
confirm-Stages ref vars tx = ground arith

release-Stages : (ref : ReservationRef) → Stages (release_command tx_stock ref)
unfolding release_command save_and_collect
release-Stages ref vars tx = ground arith

sweep-Stages : (now : Time) (batch : GoInt) → Stages (sweep_command tx_stock now batch)
unfolding sweep_command
sweep-Stages now batch vars tx = ground arith

replenish-Stages : (sku : Sku) (qty : Quantity) → Stages (replenish_command tx_stock sku qty)
unfolding replenish_command
replenish-Stages sku qty vars tx = ground arith

-- What holds at an error.
abbrev KeptAtError {ℓ μ} : {R : Type ℓ} → (World → Type μ) → World × Result Error R → Type μ
KeptAtError P (w, ok r) = Unit
KeptAtError P (w, err e) = P w

finish_kept {μ} :
    {R : Type 0} (P : World → Type μ) (w : World) (out : (Vars R × Tx) × Option Error)
    → out.0.1.world ≡ w
    → P w
    → Outcome (λ (s : Vars R × World). P s.1) (λ s. Unit) (finish out)
finish_kept P w ((vars, tx), some e) h p = subst P (sym h) p
finish_kept P w ((vars, tx), none) h p = tt

within_kept {μ} :
    {R : Type 0} (P : World → Type μ) (command : Vars R × Tx → (Vars R × Tx) × Option Error)
    → Stages command
    → (s : Vars R × World) → P s.1
    → Outcome (λ (s : Vars R × World). P s.1) (λ s. Unit) (within command s)
unfolding within
within_kept P command st (vars, w) p =
    finish_kept P w (command (vars, begin w)) (st vars (begin w)) p

answer_kept {μ} :
    {R : Type 0} (P : World → Type μ) (deps : Deps Tx World) (out : (Vars R × World) × Option Error)
    → Outcome (λ (s : Vars R × World). P s.1) (λ s. Unit) out
    → KeptAtError P (answer deps out)
answer_kept P deps ((vars, w), some e) p = p
answer_kept P deps ((vars, w), none) p = tt

abbrev pub memory_deps :
    Executor
    → (List DomainEvent → World → World)
    → (GoInt → World → World × Option Error)
    → Deps Tx World
memory_deps exec dispatch timer = record {
  exec = exec;
  work = memory_unit;
  dispatch = dispatch;
  timer = timer;
}

-- The use cases that change the store, and the error that they return.
pub data UseCase : Type 0 where
  reserves : Duration → ReserveInput → UseCase
  confirms releases : String → UseCase
  replenishes : ReplenishInput → UseCase

abbrev pub error_of : {R : Type 0} → World × Result Error R → World × Option Error
error_of (w, ok r) = (w, none)
error_of (w, err e) = (w, some e)

abbrev pub perform : Deps Tx World → (ℕ → Attempt) → UseCase → World → World × Option Error
perform deps attempts (reserves ttl input) w = error_of (reserve_use_case deps ttl attempts input w)
perform deps attempts (confirms ref) w = error_of (confirm_use_case deps attempts ref w)
perform deps attempts (releases ref) w = error_of (release_use_case deps attempts ref w)
perform deps attempts (replenishes stock) w = error_of (replenish_use_case deps attempts stock w)

kept_at {μ} :
    {R : Type 0} (P : World → Type μ) (out : World × Result Error R) (e : Error)
    → KeptAtError P out
    → (error_of out).1 ≡ some e
    → P (error_of out).0
kept_at P (w, ok r) e p f = absurd cc
kept_at P (w, err e') e p f = p

abbrev vars_of : (ℕ → Attempt) → Vars Done
vars_of attempts = record { attempts = attempts; events = []; result = tt }

module _ {μ} (exec : Executor) (dispatch : List DomainEvent → World → World)
    (timer : GoInt → World → World × Option Error) (P : World → Type μ)
    (kt : (d : GoInt) (w : World) → P w → P (timer d w).0) (h : 0 < exec.max_attempts)
    (b : exec.max_attempts < sign_bit) where
  abbrev pub deps : Deps Tx World
  deps = memory_deps exec dispatch timer

  run_rolls_back :
      {A R : Type 0} (command : A → Vars R × Tx → (Vars R × Tx) × Option Error) (vars : Vars R)
      (checked : Result Error A) (w : World)
      → ((a : A) → Stages (command a))
      → P w
      → KeptAtError P (run_checked deps command vars checked w)
  unfolding run_and_dispatch run_command
  run_rolls_back command vars (err e) w st p = p
  run_rolls_back {A} {R} command vars (ok a) w st p =
      answer_kept P deps (run_command deps (command a) (vars, w)) (
        run-Outcome is_conflict (wait deps) (within (command a)) exec
          (λ (s : Vars R × World). P s.1) (λ s. Unit) (within_kept P (command a) (st a))
          (λ d s q. kt d s.1 q) (vars, w) h b p)

  -- Over the store in memory, with an executor of at least one and fewer than 2 ^ 63 attempts: a
  -- Reserve, Confirm, Release or Replenish that returns an error has committed and dispatched
  -- nothing. What holds of the committed rows and of the outbox before holds after it, if it is
  -- kept while the back-off waits. A transaction is one step of the store.
  pub use_case_rolls_back :
      (attempts : ℕ → Attempt) (u : UseCase) (w : World) (e : Error)
      → P w
      → (perform deps attempts u w).1 ≡ some e
      → P (perform deps attempts u w).0
  unfolding reserve_use_case confirm_use_case release_use_case replenish_use_case
  use_case_rolls_back attempts (reserves ttl input) w e p f =
      kept_at P (reserve_use_case deps ttl attempts input w) e
        (run_rolls_back (λ (r, lines, skus). reserve_command tx_stock r lines skus ttl)
          (vars_of attempts) (check_reserve input) w
          (λ (r, lines, skus). reserve-Stages r lines skus ttl) p)
        f
  use_case_rolls_back attempts (confirms ref) w e p f =
      kept_at P (confirm_use_case deps attempts ref w) e
        (run_rolls_back (confirm_command tx_stock) (vars_of attempts) (check_ref ref) w
          confirm-Stages p)
        f
  use_case_rolls_back attempts (releases ref) w e p f =
      kept_at P (release_use_case deps attempts ref w) e
        (run_rolls_back (release_command tx_stock) (vars_of attempts) (check_ref ref) w
          release-Stages p)
        f
  use_case_rolls_back attempts (replenishes stock) w e p f =
      kept_at P (replenish_use_case deps attempts stock w) e
        (run_rolls_back (λ (sku, qty). replenish_command tx_stock sku qty)
          (record { attempts = attempts; events = []; result = no_result }) (check_replenish stock)
          w (λ (sku, qty). replenish-Stages sku qty) p)
        f
