-- ===== src/Inventory/Assembly.antt =====
-- The inventory's module, which its composition root and the development harness work with:
-- contexts/inventory/inventory.go. Handlers of HTTP, loggers and goroutines are left out; `work` is the
-- unit of work, in memory or on PostgreSQL.
use go_ddd_template.Base.{
  ℕ, String, ◌||◌, Option, none, some, List, [], ◌∷◌, map, GoInt, Time, Duration, is_negative, ◌==◌,
  if◌then◌else◌, Result, ok, err,
}
use go_ddd_template.Shared.Uow.{new_executor}
use go_ddd_template.Shared.Outbox.{
  Message, Router, register, deliver, Runner, with_interval, with_batch, new_runner, Wake, tick,
  cancelled,
}
use go_ddd_template.Inventory.Errors.{Error, wrapped, no_route}
use go_ddd_template.Inventory.Ports.{UnitOfWork}
use go_ddd_template.Inventory.Application.{Attempt, Deps, Done}
use go_ddd_template.Inventory.Application.Commands.{ReserveLine}
use go_ddd_template.Inventory.Application.UseCases.{
  new_batch, reserve_use_case, confirm_use_case, release_use_case, sweep,
}
use go_ddd_template.Inventory.Application.Subscriber.{
  type_confirm_reservation, type_order_cancelled, on_confirm_reservation, on_order_cancelled,
}

-- Durations in nanoseconds.
abbrev pub default_reservation_ttl : GoInt
default_reservation_ttl = 30_000_000_000

abbrev pub default_reaper_interval : GoInt
default_reaper_interval = 5_000_000_000

abbrev pub default_relay_interval : GoInt
default_relay_interval = 1_000_000_000

abbrev pub default_batch_size : GoInt
default_batch_size = 100

unfoldable pub or_duration_default : GoInt → GoInt → GoInt
or_duration_default v fallback = if is_negative v || v == 0 then fallback else v

pub record Module (T S : Type 0) : Type 1 where
  pub deps : Deps T S
  pub ttl : Duration
  pub reaper_batch : GoInt
  pub reaper_interval : GoInt
  pub runner : Runner

-- assembleModule. Its dispatcher has no handler, so that dispatching changes nothing.
unfoldable pub assemble_module :
    {T S : Type 0}
    → UnitOfWork T S
    → (GoInt → S → S × Option Error)
    → GoInt
    → GoInt
    → GoInt
    → Module T S
unfolding or_duration_default new_executor new_batch new_runner
assemble_module work timer ttl reaper_interval relay_interval = record {
  deps = record { exec = new_executor []; work = work; dispatch = λ events s. s; timer = timer };
  ttl = or_duration_default ttl default_reservation_ttl;
  reaper_batch = new_batch default_batch_size;
  reaper_interval = or_duration_default reaper_interval default_reaper_interval;
  runner = new_runner (
      with_interval (or_duration_default relay_interval default_relay_interval)
      ∷ with_batch default_batch_size
      ∷ []);
}

-- port.SKUQty
pub record SkuQty : Type 0 where
  pub sku : String
  pub qty : GoInt

abbrev pub to_reserve_line : SkuQty → ReserveLine
to_reserve_line it = record { sku = it.sku; quantity = it.qty }

abbrev pub error_of : Result Error Done → Option Error
error_of (ok d) = none
error_of (err e) = some e

-- `attempts` is what the attempts of a call read.
module _ {T S : Type 0} (m : Module T S) (attempts : ℕ → Attempt) where
  unfoldable pub reserve : String → List SkuQty → S → S × Option Error
  unfolding reserve_use_case
  reserve ref items s =
      let (s', out) =
        reserve_use_case m.deps m.ttl attempts
          (record { ref = ref; lines = map to_reserve_line items }) s in
      (s', error_of out)

  unfoldable pub confirm : String → S → S × Option Error
  unfolding confirm_use_case
  confirm ref s = let (s', out) = confirm_use_case m.deps attempts ref s in (s', error_of out)

  unfoldable pub release : String → S → S × Option Error
  unfolding release_use_case
  release ref s = let (s', out) = release_use_case m.deps attempts ref s in (s', error_of out)

  -- The router of assembleModule.
  abbrev pub routes : Router Error S
  routes =
      register type_order_cancelled (on_order_cancelled m.deps attempts)
        (register type_confirm_reservation (on_confirm_reservation m.deps attempts) [])

  unfoldable pub deliver_message : Message → S → S × Option Error
  unfolding deliver register on_order_cancelled on_confirm_reservation
  deliver_message msg s = deliver (wrapped no_route) routes msg s

module _ {T S : Type 0} (m : Module T S) where
  unfoldable pub sweep_at : Time → S → S × Option Error
  unfolding sweep
  sweep_at now s = sweep m.deps m.reaper_batch now s

  -- The loop over what wakes it, each with the time that the sweep reads; an error is only logged.
  unfoldable pub run_reaper_loop : List (Time × Wake) → S → S
  unfolding sweep_at
  run_reaper_loop [] s = s
  run_reaper_loop ((now, cancelled) ∷ wakes) s = s
  run_reaper_loop ((now, tick) ∷ wakes) s = run_reaper_loop wakes (sweep_at now s).0
