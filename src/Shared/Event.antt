-- ===== src/Shared/Event.antt =====
-- The dispatchers of domain events: shared/event/event.go and typed.go. `E` is the type of events, `X`
-- of errors, and `W` the state that handlers and sinks reach. Logging is left out.
use go_ddd_template.Base.{
  ◌≡◌, refl, sym, ap, Bool-cases, ◌∙◌, String, Option, none, some, List, [], ◌∷◌, ◌++◌, map, str_eq,
  eq_iff, arith, if◌then◌else◌, append-nil, append_assoc, Option-cases, inl, inr,
}
use go_ddd_template.Base.Dict.{Dict, lookup, insert, lookup-insert}

module _ (E X W : Type 0) where
  abbrev pub Handler : Type 0
  Handler = E → W → W × Option X

  -- d.handlers[name], which is nil for a missing key.
  abbrev pub handlers_of : Option (List Handler) → List Handler
  handlers_of none = []
  handlers_of (some hs) = hs

  unfoldable pub register : String → Handler → Dict (List Handler) → Dict (List Handler)
  register name h d = insert name (handlers_of (lookup name d) ++ h ∷ []) d

  -- Typed.On: every event that Typed.Dispatch hands on is of the type E, so that the type assertion
  -- holds and the handler that is registered is `h`.
  unfoldable pub on : String → Handler → Dict (List Handler) → Dict (List Handler)
  unfolding register
  on name h d = register name h d

  -- The inner loop of Dispatch.
  unfoldable pub run_handlers : E → List Handler → W → W × Option X
  run_handlers e [] w = (w, none)
  run_handlers e (h ∷ hs) w =
      let (w', failure) = h e w in
      elim failure [ some x ↦ (w', some x) | none ↦ run_handlers e hs w' ]

  module _ (name_of : E → String) where
    unfoldable pub dispatch : Dict (List Handler) → List E → W → W × Option X
    dispatch d [] w = (w, none)
    dispatch d (e ∷ es) w =
        let (w', failure) = run_handlers e (handlers_of (lookup (name_of e) d)) w in
        elim failure [ some x ↦ (w', some x) | none ↦ dispatch d es w' ]

    unfoldable pub run_sinks : E → List (E → W → W) → W → W
    run_sinks e [] w = w
    run_sinks e (sink ∷ sinks) w = run_sinks e sinks (sink e w)

    unfoldable pub run_all_sinks : List (E → W → W) → List E → W → W
    run_all_sinks sinks [] w = w
    run_all_sinks sinks (e ∷ es) w = run_all_sinks sinks es (run_sinks e sinks w)

    -- Typed.Dispatch: every sink for every event, and then the handlers, whose error is only logged.
    unfoldable pub dispatch_typed : List (E → W → W) → Dict (List Handler) → List E → W → W
    dispatch_typed sinks d es w = (dispatch d es (run_all_sinks sinks es w)).0

    -- The steps of a dispatch: the handlers of each event, in order.
    abbrev pub steps : Dict (List Handler) → List E → List (W → W × Option X)
    steps d [] = []
    steps d (e ∷ es) = map (λ h. h e) (handlers_of (lookup (name_of e) d)) ++ steps d es

    abbrev pub until_error : List (W → W × Option X) → W → W × Option X
    until_error [] w = (w, none)
    until_error (f ∷ fs) w =
        let (w', failure) = f w in elim failure [ some x ↦ (w', some x) | none ↦ until_error fs w' ]

    -- The steps of one event, and then the others.
    run_handlers-until_error :
        (e : E) (hs : List Handler) (fs : List (W → W × Option X)) (w : W)
        → until_error (map (λ h. h e) hs ++ fs) w ≡ elim (run_handlers e hs w).1 [
          | some x ↦ ((run_handlers e hs w).0, some x)
          | none ↦ until_error fs (run_handlers e hs w).0
        ]
    unfolding run_handlers
    run_handlers-until_error e [] fs w = refl
    run_handlers-until_error e (h ∷ hs) fs w = elim (Option-cases (h e w).1) [
      | inl fine ↦ ground (arith, fine, run_handlers-until_error e hs fs (h e w).0)
      | inr (x, failed) ↦ ground (arith, failed)
    ]

    run_handlers-dispatch :
        (e : E) (hs : List Handler) (d : Dict (List Handler)) (es : List E) (w : W)
        → ((w' : W) → dispatch d es w' ≡ until_error (steps d es) w')
        → (elim (run_handlers e hs w).1 as (λ o. W × Option X) [
          | some x ↦ ((run_handlers e hs w).0, some x)
          | none ↦ dispatch d es (run_handlers e hs w).0
        ])
          ≡ until_error (map (λ h. h e) hs ++ steps d es) w
    run_handlers-dispatch e hs d es w rest =
        ground (arith, rest (run_handlers e hs w).0, run_handlers-until_error e hs (steps d es) w)

    -- Dispatch runs the handlers of each event, in the order of the events and of the handlers of
    -- one event, one after the other until the first error, which it returns; nothing runs behind
    -- that.
    pub dispatch-until_error :
        (d : Dict (List Handler)) (es : List E) (w : W)
        → dispatch d es w ≡ until_error (steps d es) w
    unfolding dispatch
    dispatch-until_error d [] w = refl
    dispatch-until_error d (e ∷ es) w =
        let hs = handlers_of (lookup (name_of e) d) in
        run_handlers-dispatch e hs d es w (dispatch-until_error d es)

  abbrev pub register_all : List (String × Handler) → Dict (List Handler) → Dict (List Handler)
  register_all [] d = d
  register_all ((name, h) ∷ regs) d = register_all regs (register name h d)

  -- The handlers of a name, in the order of their registration.
  abbrev pub registered : String → List (String × Handler) → List Handler
  registered name [] = []
  registered name ((j, h) ∷ regs) =
      let rest = registered name regs in if str_eq j name then h ∷ rest else rest

  lookup-register :
      (name j : String) (h : Handler) (d : Dict (List Handler))
      → handlers_of (lookup name (register j h d))
        ≡ handlers_of (lookup name d) ++ (if str_eq j name then h ∷ [] else [])
  unfolding register
  lookup-register name j h d = ground (
    arith,
    eq_iff j name,
    lookup-insert j name (handlers_of (lookup j d) ++ h ∷ []) d,
    append-nil (handlers_of (lookup name d)),
  )

  registered_step :
      (hs : List Handler) (name j : String) (h : Handler) (regs : List (String × Handler))
      → (hs ++ (if str_eq j name then h ∷ [] else [])) ++ registered name regs
        ≡ hs ++ registered name ((j, h) ∷ regs)
  registered_step hs name j h regs = elim (Bool-cases (str_eq j name)) [
    | inl y ↦ rw y (append_assoc hs (h ∷ []) (registered name regs))
    | inr n ↦ rw n (append_assoc hs [] (registered name regs))
  ]

  -- Registering handlers one after the other leaves under each name what stood there and then the
  -- handlers of that name, in the order of their registration.
  pub register-registered :
      (name : String) (regs : List (String × Handler)) (d : Dict (List Handler))
      → handlers_of (lookup name (register_all regs d))
        ≡ handlers_of (lookup name d) ++ registered name regs
  unfolding register
  register-registered name [] d = sym (append-nil (handlers_of (lookup name d)))
  register-registered name ((j, h) ∷ regs) d =
      register-registered name regs (register j h d)
      ∙ ap (λ hs. hs ++ registered name regs) (lookup-register name j h d)
      ∙ registered_step (handlers_of (lookup name d)) name j h regs
