-- ===== src/Shared/Uow/Outcome.antt =====
-- What holds after a Run, by its error: for a command that leaves one thing where it fails and makes
-- another where it succeeds.
use go_ddd_template.Base.{
  Bool, ℕ, ◌<◌, ◌≡◌, Option, none, some, List, [], ◌∷◌, All, GoInt, sign_bit, int_mod, arith, ap,
  subst,
}
use go_ddd_template.Shared.Uow.{
  Executor, Setting, with_max_attempts, with_base_backoff, new_executor, apply_setting,
  apply_settings, run, sleep_backoff,
}
use go_ddd_template.Shared.Uow.Loop.{
  Ends, success, failure, exhausted, cancelled, again, run-Ends, sleep_backoff_keeps,
}

-- `Q` after success, and `P` after an error.
abbrev pub Outcome {ℓ κ μ} :
    {S : Type ℓ} {E : Type κ} → (S → Type μ) → (S → Type μ) → S × Option E → Type μ
Outcome P Q (s, none) = Q s
Outcome P Q (s, some e) = P s

module _ {ℓ κ μ} {S : Type ℓ} {E : Type κ} (is_conflict : E → Bool)
    (timer : GoInt → S → S × Option E) (body : S → S × Option E) (x : Executor)
    (P Q : S → Type μ) where
  module _ (kb : (s : S) → P s → Outcome P Q (body s))
      (kt : (d : GoInt) (s : S) → P s → P (timer d s).0) where
    slept :
        (n : ℕ) {s s' s'' : S} {e : E} {out : Option E}
        → body s ≡ (s', some e)
        → sleep_backoff timer x.base_backoff n s' ≡ (s'', out)
        → P s
        → P s''
    slept n {s = s} {s' = s'} {e = e} h w p = subst P (ap (λ (r : S × Option E). r.0) w) (
        sleep_backoff_keeps is_conflict timer body x P kt x.base_backoff n s'
          (subst (Outcome P Q) h (kb s p)))

    Ends-Outcome :
        {n : ℕ} {s t : S} {out : Option E}
        → Ends is_conflict timer body x n s t out
        → P s
        → Outcome P Q (t, out)
    Ends-Outcome {s = s} (success h) p = subst (Outcome P Q) h (kb s p)
    Ends-Outcome {s = s} (failure h c) p = subst (Outcome P Q) h (kb s p)
    Ends-Outcome {s = s} (exhausted h c m) p = subst (Outcome P Q) h (kb s p)
    Ends-Outcome {n = n} (cancelled h c m w) p = slept n h w p
    Ends-Outcome {n = n} (again h c m w rest) p = Ends-Outcome rest (slept n h w p)

    -- Let a command on a state with `P` end in `Q` if it succeeds and in `P` if it fails, and let a
    -- wait keep `P`. Then a Run from `P`, with at least one attempt and fewer than 2 ^ 63, ends in
    -- `Q` if its error is nil and in `P` otherwise.
    pub run-Outcome :
        (s : S)
        → 0 < x.max_attempts
        → x.max_attempts < sign_bit
        → P s
        → Outcome P Q (run is_conflict timer body x s)
    run-Outcome s h b p = Ends-Outcome (run-Ends is_conflict timer body x s h b) p

abbrev IsSetting : Setting → Type 0
IsSetting (with_max_attempts n) = n < int_mod
IsSetting (with_base_backoff d) = d < int_mod

abbrev InRange : Executor → Type 0
InRange x = (0 < x.max_attempts) × (x.max_attempts < sign_bit)

apply_settings-InRange :
    (opts : List Setting) (x : Executor)
    → All IsSetting opts
    → InRange x
    → InRange (apply_settings opts x)
unfolding apply_settings apply_setting
apply_settings-InRange [] x a r = r
apply_settings-InRange (with_max_attempts n ∷ opts) x a r =
    apply_settings-InRange opts (apply_setting (with_max_attempts n) x) a.1 (ground arith)
apply_settings-InRange (with_base_backoff d ∷ opts) x a r =
    apply_settings-InRange opts (apply_setting (with_base_backoff d) x) a.1 r

-- Whatever the options, an executor made by NewExecutor allows at least one attempt, and fewer than
-- 2 ^ 63.
pub new_executor_attempts :
    (opts : List Setting)
    → All IsSetting opts
    → (0 < (new_executor opts).max_attempts) × ((new_executor opts).max_attempts < sign_bit)
unfolding new_executor
new_executor_attempts opts a =
    apply_settings-InRange opts (record { max_attempts = 3; base_backoff = 5_000_000 }) a
      (ground arith)
