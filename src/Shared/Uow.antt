-- ===== src/Shared/Uow.antt =====
-- Run a command in a unit of work, and again while it meets a concurrency conflict:
-- shared/uow/uow.go. The state `S` is all that a command or another goroutine changes.
pub mod Loop
pub mod Outcome
use go_ddd_template.Base.{
  ℕ, zero, suc, ◌+◌, ◌-◌, ◌*◌, ◌%◌, ◌^◌, Bool, true, false, Option, none, some, List, [], ◌∷◌,
  GoInt, int_mod, is_negative, less_int, leb, ◌==◌, if◌then◌else◌, ◌||◌,
}

-- Durations are 64-bit integers here, since the back-off shifts them.
pub record Executor : Type 0 where
  pub max_attempts : GoInt
  pub base_backoff : GoInt

pub data Setting : Type 0 where
  with_max_attempts with_base_backoff : GoInt → Setting

unfoldable pub apply_setting : Setting → Executor → Executor
apply_setting (with_max_attempts n) x = record x { max_attempts = if less_int n 1 then 1 else n }
apply_setting (with_base_backoff d) x = record x { base_backoff = d }

unfoldable pub apply_settings : List Setting → Executor → Executor
apply_settings [] x = x
apply_settings (o ∷ opts) x = apply_settings opts (apply_setting o x)

-- Three attempts, and 5 milliseconds to begin with.
unfoldable pub new_executor : List Setting → Executor
unfolding apply_settings apply_setting
new_executor opts = apply_settings opts (record { max_attempts = 3; base_backoff = 5_000_000 })

-- How often the loop head `attempt <= x.maxAttempts` can let a round in, from attempt 1.
abbrev pub rounds : Executor → ℕ
rounds x = if is_negative x.max_attempts then 0 else x.max_attempts

-- base << (attempt - 1)
abbrev pub backoff : GoInt → ℕ → GoInt
backoff base attempt = (base * 2 ^ (attempt - 1)) % int_mod

module _ {ℓ κ} {S : Type ℓ} {E : Type κ} where
  -- `timer d` waits for `d` or for the end of the context, whose error it gives then. Other
  -- goroutines run in the meantime.
  unfoldable pub sleep_backoff : (GoInt → S → S × Option E) → GoInt → ℕ → S → S × Option E
  sleep_backoff timer base attempt s =
      if is_negative base || base == 0 then (s, none) else timer (backoff base attempt) s

  -- The rounds that are left from one attempt on, with the last error. `body` is a call of
  -- unit.Within with the command.
  unfoldable pub run_loop :
      (E → Bool)
      → (GoInt → S → S × Option E)
      → (S → S × Option E)
      → Executor
      → ℕ
      → ℕ
      → Option E
      → S
      → S × Option E
  unfolding sleep_backoff
  run_loop is_conflict timer body x zero attempt last s = (s, last)
  run_loop is_conflict timer body x (suc left) attempt last s =
      let (s', failure) = body s in
      elim failure [
        | none ↦ (s', none)
        | some e ↦ elim (is_conflict e) [
          | false ↦ (s', some e)
          | true ↦ elim (attempt == x.max_attempts) [
            | true ↦ (s', some e)
            | false ↦
                let (s'', cancelled) = sleep_backoff timer x.base_backoff attempt s' in
                elim cancelled [
                  | some c ↦ (s'', some c)
                  | none ↦ run_loop is_conflict timer body x left (attempt + 1) (some e) s''
                ]
          ]
        ]
      ]

  unfoldable pub run :
      (E → Bool) → (GoInt → S → S × Option E) → (S → S × Option E) → Executor → S → S × Option E
  unfolding run_loop
  run is_conflict timer body x s = run_loop is_conflict timer body x (rounds x) 1 none s
