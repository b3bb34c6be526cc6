-- ===== src/Inventory/Application/UseCases.antt =====
-- The use cases on reservations: Reserver, Confirmer, Releaser and Reaper of application/reserve.go,
-- confirm.go, release.go and reaper.go, with the checks of their input.
use go_ddd_template.Base.{
  ℕ, String, Option, none, some, List, [], ◌∷◌, GoInt, Time, Duration, less_int, Result, ok, ◌>>=◌,
  map_err, if◌then◌else◌,
}
use go_ddd_template.Inventory.Errors.{Error}
use go_ddd_template.Inventory.Values.{Sku, ReservationRef, new_reservation_ref}
use go_ddd_template.Inventory.ReservationService.{ReservationLine}
use go_ddd_template.Inventory.Validation.{locate}
use go_ddd_template.Inventory.Ports.{StockStore}
use go_ddd_template.Inventory.Application.{
  Attempt, Deps, Done, Vars, run_command, run_and_dispatch, run_checked,
}
use go_ddd_template.Inventory.Application.Commands.{
  ReserveInput, to_reservation_lines, reserve_command, confirm_command, release_command,
  sweep_command,
}

-- NewReaper's batch.
unfoldable pub new_batch : GoInt → GoInt
new_batch batch = if less_int batch 1 then 100 else batch

unfoldable pub check_reserve :
    ReserveInput → Result Error (ReservationRef × List ReservationLine × List Sku)
unfolding to_reservation_lines new_reservation_ref
check_reserve input = do
  ref ← map_err (locate "") (new_reservation_ref input.ref)
  out ← to_reservation_lines 0 input.lines
  ok (ref, out.0, out.1)

abbrev pub check_ref : String → Result Error ReservationRef
check_ref ref_text = map_err (locate "") (new_reservation_ref ref_text)

module _ {T S : Type 0} (deps : Deps T S) where
  abbrev store : StockStore T
  store = deps.work.repos.stock

  abbrev pub start : (ℕ → Attempt) → Vars Done
  start attempts = record { attempts = attempts; events = []; result = tt }

  unfoldable pub reserve_use_case :
      Duration → (ℕ → Attempt) → ReserveInput → S → S × Result Error Done
  unfolding check_reserve reserve_command run_and_dispatch
  reserve_use_case ttl attempts input =
      run_checked deps (λ (ref, lines, skus). reserve_command store ref lines skus ttl)
        (start attempts) (check_reserve input)

  unfoldable pub confirm_use_case : (ℕ → Attempt) → String → S → S × Result Error Done
  unfolding confirm_command run_and_dispatch new_reservation_ref
  confirm_use_case attempts ref_text =
      run_checked deps (confirm_command store) (start attempts) (check_ref ref_text)

  unfoldable pub release_use_case : (ℕ → Attempt) → String → S → S × Result Error Done
  unfolding release_command run_and_dispatch new_reservation_ref
  release_use_case attempts ref_text =
      run_checked deps (release_command store) (start attempts) (check_ref ref_text)

  -- Sweep at the time `now`, with the batch of the Reaper. Without events nothing is dispatched.
  unfoldable pub sweep : GoInt → Time → S → S × Option Error
  unfolding sweep_command run_command
  sweep batch now s =
      let ((vars', s'), failure) =
        run_command deps (sweep_command store now batch)
          (start (λ n. record { clock = λ i. now; id = "" }), s) in
      elim failure [
        | some e ↦ (s', some e)
        | none ↦ elim vars'.events [
          | [] ↦ (s', none)
          | event ∷ events ↦ (deps.dispatch (event ∷ events) s', none)
        ]
      ]
