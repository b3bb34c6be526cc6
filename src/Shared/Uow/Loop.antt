-- ===== src/Shared/Uow/Loop.antt =====
-- How a Run ends, as a relation, and what it keeps.
use go_ddd_template.Base.{
  ltb, ◌&&◌, ◌||◌, ◌-◌, is_negative, ℕ, zero, suc, ◌+◌, ◌≤◌, ◌<◌, ◌≡◌, refl, Bool, true, false,
  Option, none, some, GoInt, sign_bit, arith, Bool-cases, Option-cases, inl, inr, ◌==◌, sym, ap,
  subst,
}
use native.Mathlib.Decide.{dec_lt}
use go_ddd_template.Shared.Uow.{Executor, backoff, sleep_backoff, run_loop, run, rounds}

module _ {ℓ κ} {S : Type ℓ} {E : Type κ} (is_conflict : E → Bool) (timer : GoInt → S → S × Option E)
    (body : S → S × Option E) (x : Executor) where
  -- From an attempt on, the state and the error with which the run ends.
  pub data Ends : ℕ → S → S → Option E → Type (ℓ ⊔ κ) where
    success : {n : ℕ} {s s' : S} → body s ≡ (s', none) → Ends n s s' none
    failure :
        {n : ℕ} {s s' : S} {e : E}
        → body s ≡ (s', some e)
        → is_conflict e ≡ false
        → Ends n s s' (some e)
    exhausted :
        {n : ℕ} {s s' : S} {e : E}
        → body s ≡ (s', some e)
        → is_conflict e ≡ true
        → n ≡ x.max_attempts
        → Ends n s s' (some e)
    cancelled :
        {n : ℕ} {s s' s'' : S} {e c : E}
        → body s ≡ (s', some e)
        → is_conflict e ≡ true
        → n < x.max_attempts
        → sleep_backoff timer x.base_backoff n s' ≡ (s'', some c)
        → Ends n s s'' (some c)
    again :
        {n : ℕ} {s s' s'' t : S} {e : E} {out : Option E}
        → body s ≡ (s', some e)
        → is_conflict e ≡ true
        → n < x.max_attempts
        → sleep_backoff timer x.base_backoff n s' ≡ (s'', none)
        → Ends (suc n) s'' t out
        → Ends n s t out

  abbrev EndsIn : ℕ → S → S × Option E → Type (ℓ ⊔ κ)
  EndsIn n s out = Ends n s out.0 out.1

  module _ (left n : ℕ) (last : Option E) (s s' : S) where
    abbrev loop : S × Option E
    loop = run_loop is_conflict timer body x (suc left) n last s

    loop_success : body s ≡ (s', none) → loop ≡ (s', none)
    unfolding run_loop
    loop_success h = ground arith

    loop_failure : (e : E) → body s ≡ (s', some e) → is_conflict e ≡ false → loop ≡ (s', some e)
    unfolding run_loop
    loop_failure e h c = ground arith

    loop_exhausted :
        (e : E)
        → body s ≡ (s', some e)
        → is_conflict e ≡ true
        → n ≡ x.max_attempts
        → loop ≡ (s', some e)
    unfolding run_loop
    loop_exhausted e h c m = ground arith

    loop_cancelled :
        (e c : E) (s'' : S)
        → body s ≡ (s', some e)
        → is_conflict e ≡ true
        → n < x.max_attempts
        → sleep_backoff timer x.base_backoff n s' ≡ (s'', some c)
        → loop ≡ (s'', some c)
    unfolding run_loop
    loop_cancelled e c s'' h conflict m w = ground arith

    loop_again :
        (e : E) (s'' : S)
        → body s ≡ (s', some e)
        → is_conflict e ≡ true
        → n < x.max_attempts
        → sleep_backoff timer x.base_backoff n s' ≡ (s'', none)
        → loop ≡ run_loop is_conflict timer body x left (n + 1) (some e) s''
    unfolding run_loop
    loop_again e s'' h conflict m w = ground arith

  -- A round after a conflict, which is the last one or leads to the next.
  conflict-Ends :
      (left n : ℕ) (last : Option E) (s s' : S) (err : E)
      → body s ≡ (s', some err)
      → is_conflict err ≡ true
      → n ≤ x.max_attempts
      → ((s'' : S)
          → n < x.max_attempts
          → EndsIn (suc n) s'' (run_loop is_conflict timer body x left (n + 1) (some err) s''))
      → EndsIn n s (run_loop is_conflict timer body x (suc left) n last s)
  conflict-Ends left n last s s' err eq c h next = elim (dec_lt n x.max_attempts) [
    | no m ↦
        let m' : n ≡ x.max_attempts = omega arith in
        subst (EndsIn n s) (sym (loop_exhausted left n last s s' err eq c m')) (exhausted eq c m')
    | yes m ↦
        let slept : S × Option E = sleep_backoff timer x.base_backoff n s' in
        elim (Option-cases slept.1) [
          | inl e ↦
              let w : slept ≡ (slept.0, none) = ap (λ o. (slept.0, o)) e in
              subst (EndsIn n s) (sym (loop_again left n last s s' err slept.0 eq c m w))
                (again eq c m w (next slept.0 m))
          | inr (stop, e) ↦
              let w : slept ≡ (slept.0, some stop) = ap (λ o. (slept.0, o)) e in
              subst (EndsIn n s) (sym (loop_cancelled left n last s s' err stop slept.0 eq c m w))
                (cancelled eq c m w)
        ]
  ]

  round-Ends :
      (left n : ℕ) (last : Option E) (s : S)
      → n ≤ x.max_attempts
      → ((err : E) (s'' : S)
          → n < x.max_attempts
          → EndsIn (suc n) s'' (run_loop is_conflict timer body x left (n + 1) (some err) s''))
      → EndsIn n s (run_loop is_conflict timer body x (suc left) n last s)
  round-Ends left n last s h next = elim (Option-cases (body s).1) [
    | inl e ↦
        let eq : body s ≡ ((body s).0, none) = ap (λ o. ((body s).0, o)) e in
        subst (EndsIn n s) (sym (loop_success left n last s _ eq)) (success eq)
    | inr (err, e) ↦
        let eq : body s ≡ ((body s).0, some err) = ap (λ o. ((body s).0, o)) e in
        elim (Bool-cases (is_conflict err)) [
          | inr c ↦ subst (EndsIn n s) (sym (loop_failure left n last s _ err eq c)) (failure eq c)
          | inl c ↦ conflict-Ends left n last s (body s).0 err eq c h (next err)
        ]
  ]

  run_loop-Ends :
      (left n : ℕ) (last : Option E) (s : S)
      → n + left ≡ x.max_attempts
      → EndsIn n s (run_loop is_conflict timer body x (suc left) n last s)
  run_loop-Ends zero n last s h =
      round-Ends zero n last s (omega arith) (λ err s'' m. absurd (omega arith))
  run_loop-Ends (suc left) n last s h = round-Ends (suc left) n last s (omega arith) (λ err s'' m.
      subst
        (λ k. EndsIn (suc n) s'' (run_loop is_conflict timer body x (suc left) k (some err) s''))
        (omega arith) (run_loop-Ends left (suc n) (some err) s'' (omega arith)))

  -- With at least one attempt and fewer than 2 ^ 63, Run ends in one of these ways, within the
  -- attempts that the executor allows: a nil error from an attempt that succeeds; the first error
  -- that is no conflict; the error of the context while it waits; or the conflict of the last
  -- attempt.
  pub run-Ends :
      (s : S)
      → 0 < x.max_attempts
      → x.max_attempts < sign_bit
      → EndsIn 1 s (run is_conflict timer body x s)
  unfolding run
  run-Ends s h b =
      let e : rounds x ≡ suc (x.max_attempts - 1) = ground arith in
      subst (λ k. EndsIn 1 s (run_loop is_conflict timer body x k 1 none s)) (sym e)
        (run_loop-Ends (x.max_attempts - 1) 1 none s (omega arith))

  pub sleep_backoff_keeps {μ} :
      (P : S → Type μ)
      → ((d : GoInt) (s : S) → P s → P (timer d s).0)
      → (base : GoInt) (n : ℕ) (s : S) → P s
      → P (sleep_backoff timer base n s).0
  unfolding sleep_backoff
  sleep_backoff_keeps P kt base n s p = elim (Bool-cases (is_negative base || base == 0)) [
    | inl e ↦ rw e p
    | inr e ↦ rw e (kt (backoff base n) s p)
  ]

  Ends_keeps {μ} :
      (P : S → Type μ)
      → ((s : S) → P s → P (body s).0)
      → ((d : GoInt) (s : S) → P s → P (timer d s).0)
      → {n : ℕ} {s t : S} {out : Option E} → Ends n s t out
      → P s
      → P t
  Ends_keeps P kb kt {s = s} (success h) p = subst P (ap (λ (r : S × Option E). r.0) h) (kb s p)
  Ends_keeps P kb kt {s = s} (failure h c) p = subst P (ap (λ (r : S × Option E). r.0) h) (kb s p)
  Ends_keeps P kb kt {s = s} (exhausted h c m) p =
      subst P (ap (λ (r : S × Option E). r.0) h) (kb s p)
  Ends_keeps P kb kt {n = n} {s = s} (cancelled {s' = s'} h c m w) p =
      subst P (ap (λ (r : S × Option E). r.0) w) (
        sleep_backoff_keeps P kt x.base_backoff n s'
          (subst P (ap (λ (r : S × Option E). r.0) h) (kb s p)))
  Ends_keeps P kb kt {n = n} {s = s} (again {s' = s'} h c m w rest) p = Ends_keeps P kb kt rest (
      subst P (ap (λ (r : S × Option E). r.0) w) (
        sleep_backoff_keeps P kt x.base_backoff n s'
          (subst P (ap (λ (r : S × Option E). r.0) h) (kb s p))))

  Ends-success :
      {n : ℕ} {s t : S} {out : Option E}
      → Ends n s t out
      → out ≡ none
      → (u : S) × (body u ≡ (t, none))
  Ends-success {s = s} (success h) e = (s, h)
  Ends-success (failure h c) e = cc
  Ends-success (exhausted h c m) e = cc
  Ends-success (cancelled h c m w) e = cc
  Ends-success (again h c m w rest) e = Ends-success rest e

  -- What every attempt and every wait keep, Run keeps.
  pub run_keeps {μ} :
      (P : S → Type μ)
      → ((s : S) → P s → P (body s).0)
      → ((d : GoInt) (s : S) → P s → P (timer d s).0)
      → (s : S) → P s
      → P (run is_conflict timer body x s).0
  unfolding run
  run_keeps P kb kt s p = elim (Bool-cases (ltb 0 x.max_attempts && ltb x.max_attempts sign_bit)) [
    | inl e ↦ Ends_keeps P kb kt (run-Ends s (ground arith) (ground arith)) p
    | inr e ↦
        let none_left : rounds x ≡ zero = ground arith in
        subst (λ k. P (run_loop is_conflict timer body x k 1 none s).0) (sym none_left)
          (unfold run_loop in p)
  ]

  -- With at least one attempt and fewer than 2 ^ 63, a nil error of Run comes from an attempt of
  -- the command that succeeded, and the state is the one that this attempt left.
  pub run_success :
      (s t : S)
      → 0 < x.max_attempts
      → x.max_attempts < sign_bit
      → run is_conflict timer body x s ≡ (t, none)
      → (u : S) × (body u ≡ (t, none))
  run_success s t h b e =
      Ends-success (subst (λ (out : S × Option E). Ends 1 s out.0 out.1) e (run-Ends s h b)) refl
