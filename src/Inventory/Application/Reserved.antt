-- ===== src/Inventory/Application/Reserved.antt =====
-- What a Reserve that succeeds has committed: application/reserve.go over the store in memory.
use go_ddd_template.Base.{
  ℕ, ◌<◌, ◌≡◌, ap, sym, subst, Option, none, some, List, [], GoInt, Duration, Result, ok, err,
  arith, sign_bit, inl, inr, Result-cases,
}
use go_ddd_template.Shared.Uow.{Executor}
use go_ddd_template.Shared.Uow.Outcome.{run-Outcome, Outcome}
use go_ddd_template.Inventory.Errors.{Error, is_conflict}
use go_ddd_template.Inventory.Event.{DomainEvent}
use go_ddd_template.Inventory.Values.{Sku, ReservationRef}
use go_ddd_template.Inventory.ReservationService.{ReservationLine}
use go_ddd_template.Inventory.Store.Unit.{World, Tx, within, tx_stock}
use go_ddd_template.Inventory.Application.{
  Attempt, Deps, Vars, Done, answer, wait, run_checked, run_command, run_and_dispatch,
}
use go_ddd_template.Inventory.Application.Commands.{ReserveInput, reserve_command}
use go_ddd_template.Inventory.Application.UseCases.{reserve_use_case, check_reserve}
use go_ddd_template.Inventory.Application.ReserveCommit.{AllCommitted, reserve_command-Good}
use go_ddd_template.Inventory.Application.Rollback.{memory_deps}

-- The input is one that the use case accepts, and the committed rows hold its reference for each of its
-- lines.
abbrev pub IsReserved : ReserveInput → World → Type 0
IsReserved input w =
    (ref : ReservationRef) × (lines : List ReservationLine) × (skus : List Sku) × (check_reserve
        input
      ≡ ok (ref, lines, skus))
    × AllCommitted ref lines w.rows

-- What holds where a use case succeeds.
abbrev AtSuccess : {R : Type 0} → (World → Type 0) → World × Result Error R → Type 0
AtSuccess Q (w, ok r) = Q w
AtSuccess Q (w, err e) = Unit

answered :
    {R : Type 0} (Q : World → Type 0) (deps : Deps Tx World) (out : (Vars R × World) × Option Error)
    → ((events : List DomainEvent) (w : World) → Q w → Q (deps.dispatch events w))
    → Outcome (λ s. Unit) (λ (s : Vars R × World). Q s.1) out
    → AtSuccess Q (answer deps out)
answered Q deps ((vars, w), some e) keeps q = tt
answered Q deps ((vars, w), none) keeps q = keeps vars.events w q

at_success :
    {R : Type 0} (Q : World → Type 0) (r : R) (out : World × Result Error R)
    → AtSuccess Q out
    → out.1 ≡ ok r
    → Q out.0
at_success Q r (w, ok a) q h = q
at_success Q r (w, err e) q h = absurd (ground (arith, h))

module _ (exec : Executor) (dispatch : List DomainEvent → World → World)
    (timer : GoInt → World → World × Option Error) (h : 0 < exec.max_attempts)
    (b : exec.max_attempts < sign_bit)
    (keeps : (events : List DomainEvent) (w : World) → (dispatch events w).rows ≡ w.rows) where
  abbrev deps : Deps Tx World
  deps = memory_deps exec dispatch timer

  run_reserve :
      (ref : ReservationRef) (lines : List ReservationLine) (skus : List Sku) (ttl : Duration)
      (vars : Vars Done) (w : World)
      → AtSuccess
          (λ w'. AllCommitted ref lines w'.rows)
          (run_and_dispatch deps (reserve_command tx_stock ref lines skus ttl) vars w)
  unfolding run_and_dispatch run_command
  run_reserve ref lines skus ttl vars w =
      let command = reserve_command tx_stock ref lines skus ttl in
      answered (λ w'. AllCommitted ref lines w'.rows) deps (run_command deps command (vars, w))
        (λ events w' q. subst (AllCommitted ref lines) (sym (keeps events w')) q)
        (run-Outcome is_conflict (wait deps) (within command) exec (λ s. Unit)
          (λ (s : Vars Done × World). AllCommitted ref lines s.1.rows)
          (λ s p. reserve_command-Good ref lines ttl skus s.0 s.1) (λ d s p. tt) (vars, w) h b tt)

  pub reserve_use_case-IsReserved :
      (attempts : ℕ → Attempt) (ttl : Duration) (input : ReserveInput) (w : World)
      → let out = reserve_use_case deps ttl attempts input w in
        out.1 ≡ ok tt → IsReserved input out.0
  unfolding reserve_use_case
  reserve_use_case-IsReserved attempts ttl input w succeeded =
      elim (Result-cases (check_reserve input)) [
        | inl ((ref, lines, skus), e) ↦
            let Q : World → Type 0 = λ w'. AllCommitted ref lines w'.rows in
            let run = run_and_dispatch deps (reserve_command tx_stock ref lines skus ttl) in
            let vars : Vars Done = record { attempts = attempts; events = []; result = tt } in
            let same : reserve_use_case deps ttl attempts input w ≡ run vars w =
              ap
                (λ (checked : Result Error (ReservationRef × List ReservationLine × List Sku)).
                  run_checked deps (λ (r, ls, ks). reserve_command tx_stock r ls ks ttl) vars
                    checked w)
                e in
            (
              ref,
              lines,
              skus,
              e,
              at_success Q tt (reserve_use_case deps ttl attempts input w)
                  (subst (AtSuccess Q) (sym same) (run_reserve ref lines skus ttl vars w))
                  succeeded,
            )
        | inr (failure, e) ↦ absurd (ground (arith, succeeded, e))
      ]
