-- ===== src/Shared/Outbox/Relay.antt =====
-- One round of the relay over the store in memory: it publishes a batch in order, stops at the
-- first refusal, and takes exactly what it has published from the queue.
use go_ddd_template.Base.{
  int_mod, ℕ, zero, suc, ◌+◌, ◌<◌, ◌≡◌, refl, ap, sym, ◌∙◌, subst, Bool, true, false, not, ◌&&◌,
  Option, none, some, List, [], ◌∷◌, ◌++◌, GoInt, sign_bit, arith, length, length-append, take,
  drop, take-append-drop, All, keep_if, keep_if-All, less_int, leb, ltb, str_eq, eq_refl,
  append_assoc, append-nil, if◌then◌else◌, Bool-cases, Option-cases, inl, inr,
}
use mathlib.Core.Option
use go_ddd_template.Base.Dict.{Dict, lookup}
use go_ddd_template.Shared.Outbox.{Message, Publisher, Runner, send_loop, run_once}
use go_ddd_template.Shared.Outbox.Memory.{
  Stores, take_loop, unpublished, is_dropped, keep_loop, mark_published, outbox_view,
}

abbrev is_last : ℕ → Bool
is_last zero = true
is_last (suc n) = false

-- The test of the loop passes exactly when the batch is full.
loop_full :
    (limit : GoInt) (n : ℕ) (m : Message) (out : List Message)
    → length out + suc n ≡ limit
    → limit < sign_bit
    → (less_int 0 limit && leb limit (length (out ++ m ∷ []))) ≡ is_last n
loop_full limit zero m out h b = ground (arith, length-append out (m ∷ []))
loop_full limit (suc n) m out h b = ground (arith, length-append out (m ∷ []))

take_loop-take :
    (limit : GoInt) (n : ℕ) (queue out : List Message)
    → length out + suc n ≡ limit
    → limit < sign_bit
    → take_loop limit queue out ≡ out ++ take (suc n) queue
unfolding take_loop
take_loop-take limit n [] out h b = sym (append-nil out)
take_loop-take limit zero (m ∷ queue) out h b = rw (loop_full limit zero m out h b)
take_loop-take limit (suc n) (m ∷ queue) out h b = rw (loop_full limit (suc n) m out h b) (
    take_loop-take limit n queue (out ++ m ∷ []) (omega (arith, length-append out (m ∷ []))) b
    ∙ append_assoc out (m ∷ []) (take (suc n) queue))

take_loop_all :
    (limit : GoInt) (queue out : List Message)
    → less_int 0 limit ≡ false
    → take_loop limit queue out ≡ out ++ queue
unfolding take_loop
take_loop_all limit [] out h = sym (append-nil out)
take_loop_all limit (m ∷ queue) out h =
    rw h (take_loop_all limit queue (out ++ m ∷ []) h ∙ append_assoc out (m ∷ []) queue)

-- The batch of the store in memory is the first `limit` messages of the queue, or all of it where
-- the limit, a 64-bit pattern, is not positive.
pub unpublished-take :
    (limit : GoInt) (s : Stores)
    → limit < int_mod
    → unpublished limit s
      ≡ (if ltb 0 limit && ltb limit sign_bit then take limit s.queue else s.queue)
unfolding unpublished
unpublished-take zero s h = ground (arith, take_loop_all zero s.queue [])
unpublished-take (suc n) s h = elim (Bool-cases (ltb (suc n) sign_bit)) [
  | inl b ↦ ground (arith, take_loop-take (suc n) n s.queue [])
  | inr b ↦ ground (arith, take_loop_all (suc n) s.queue [])
]

keep_loop-keep_if :
    (gone : Dict Bool) (queue kept : List Message)
    → keep_loop gone queue kept ≡ kept ++ keep_if (λ m. not (is_dropped (lookup m.id gone))) queue
unfolding keep_loop
keep_loop-keep_if gone [] kept = sym (append-nil kept)
keep_loop-keep_if gone (m ∷ queue) kept = elim (Bool-cases (is_dropped (lookup m.id gone))) [
  | inl e ↦ rw e (keep_loop-keep_if gone queue kept)
  | inr e ↦ rw e (
      keep_loop-keep_if gone queue (kept ++ m ∷ [])
      ∙ append_assoc kept (m ∷ []) (keep_if (λ m. not (is_dropped (lookup m.id gone))) queue))
]

-- No two messages have one identifier.
abbrev pub DistinctIds : List Message → Type 0
DistinctIds [] = Unit
DistinctIds (m ∷ queue) = All (λ (n : Message). str_eq m.id n.id ≡ false) queue × DistinctIds queue

-- Only the one identifier is dropped.
kept_others :
    (m : Message) (queue : List Message)
    → All (λ (n : Message). str_eq m.id n.id ≡ false) queue
    → All (λ (n : Message). not (is_dropped (lookup n.id ((m.id, true) ∷ []))) ≡ true) queue
unfolding lookup
kept_others m [] a = tt
kept_others m (n ∷ queue) a = (rw a.0, kept_others m queue a.1)

mark_published_head :
    (m : Message) (queue : List Message) (s : Stores)
    → DistinctIds (m ∷ queue)
    → s.queue ≡ m ∷ queue
    → mark_published (m.id ∷ []) s ≡ record s { queue = queue }
unfolding mark_published
mark_published_head m queue s d h =
    ap (λ q. record s { queue = q })
      (keep_loop-keep_if ((m.id, true) ∷ []) s.queue []
        ∙ rw h (rw (eq_refl m.id) (keep_if-All _ queue (kept_others m queue d.0))))

-- Publishing messages one after the other until one is refused: the state, how many were taken,
-- and the refusal.
abbrev pub publish_all {ℓ} : {E W : Type ℓ} → Publisher E W → List Message → W → W × ℕ × Option E
publish_all publish [] w = (w, 0, none)
publish_all publish (m ∷ msgs) w =
    let (w', refused) = publish m w in
    elim refused [
      | some e ↦ (w', 0, some e)
      | none ↦ let (w'', n, e) = publish_all publish msgs w' in (w'', suc n, e)
    ]

-- The messages that a round takes up, and those behind them.
abbrev pub batch_of : Runner → List Message → List Message
batch_of r queue = if ltb 0 r.batch && ltb r.batch sign_bit then take r.batch queue else queue

rest_of : Runner → List Message → List Message
rest_of r queue = if ltb 0 r.batch && ltb r.batch sign_bit then drop r.batch queue else []

batch_of-append : (r : Runner) (queue : List Message) → batch_of r queue ++ rest_of r queue ≡ queue
unfolding rest_of
batch_of-append r queue = ground (arith, take-append-drop r.batch queue, append-nil queue)

module _ {E W : Type 0} (publish : Publisher E W) (wrap : E → E) where
  -- What a round leaves of a queue, after so many messages have been published.
  abbrev pub relayed : Stores → List Message → ℕ → W × ℕ × Option E → Stores × W × ℕ × Option E
  relayed s queue sent (w, n, refused) =
      (record s { queue = drop n queue }, w, sent + n, Option.map wrap refused)

  module _ (m : Message) (msgs : List Message) (sent : ℕ) (s : Stores) (w : W) where
    send_refused :
        (e : E)
        → (publish m w).1 ≡ some e
        → send_loop outbox_view publish wrap (m ∷ msgs) sent s w
          ≡ (s, (publish m w).0, sent, some (wrap e))
    unfolding send_loop
    send_refused e h = ground arith

    send_accepted :
        (publish m w).1 ≡ none
        → send_loop outbox_view publish wrap (m ∷ msgs) sent s w
          ≡ send_loop outbox_view publish wrap msgs
              (suc sent)
              (mark_published (m.id ∷ []) s)
              (publish m w).0
    unfolding send_loop
    send_accepted h = ground arith

    publish_refused :
        (e : E)
        → (publish m w).1 ≡ some e
        → publish_all publish (m ∷ msgs) w ≡ ((publish m w).0, 0, some e)
    publish_refused e h = ground arith

    publish_accepted :
        (w' : W) (n : ℕ) (e : Option E)
        → (publish m w).1 ≡ none
        → publish_all publish msgs (publish m w).0 ≡ (w', n, e)
        → publish_all publish (m ∷ msgs) w ≡ (w', suc n, e)
    publish_accepted w' n e h p = ground arith

  relayed_zero :
      (s : Stores) (queue : List Message) (sent : ℕ) (w : W) (e : Option E)
      → s.queue ≡ queue
      → ◌≡◌ {A = Stores × W × ℕ × Option E}
          (s, w, sent, Option.map wrap e)
          (relayed s queue sent (w, 0, e))
  relayed_zero s queue sent w e h = ground arith

  relayed-suc :
      (s : Stores) (m : Message) (queue : List Message) (sent : ℕ) (out : W × ℕ × Option E)
      → relayed (record s { queue = queue }) queue (suc sent) out
        ≡ relayed s (m ∷ queue) sent (out.0, suc out.1, out.2)
  relayed-suc s m queue sent out = ground arith

  send_loop-relayed :
      (msgs rest : List Message) (sent : ℕ) (s : Stores) (w : W)
      → s.queue ≡ msgs ++ rest
      → DistinctIds (msgs ++ rest)
      → send_loop outbox_view publish wrap msgs sent s w
        ≡ relayed s (msgs ++ rest) sent (publish_all publish msgs w)
  send_loop-relayed [] rest sent s w h d = unfold send_loop in ground arith
  send_loop-relayed (m ∷ msgs) rest sent s w h d = elim (Option-cases (publish m w).1) [
    | inr (e, r) ↦
        send_refused m msgs sent s w e r
        ∙ relayed_zero s (m ∷ (msgs ++ rest)) sent (publish m w).0 (some e) h
        ∙ ap (relayed s (m ∷ (msgs ++ rest)) sent) (sym (publish_refused m msgs sent s w e r))
    | inl e ↦
        let out : W × ℕ × Option E = publish_all publish msgs (publish m w).0 in
        send_accepted m msgs sent s w e
        ∙ ap (λ t. send_loop outbox_view publish wrap msgs (suc sent) t (publish m w).0)
            (mark_published_head m (msgs ++ rest) s d h)
        ∙ send_loop-relayed msgs rest (suc sent) (record s { queue = msgs ++ rest }) (publish m w).0
            refl d.1
        ∙ relayed-suc s m (msgs ++ rest) sent out
        ∙ ap (relayed s (m ∷ (msgs ++ rest)) sent)
            (sym (publish_accepted m msgs sent s w out.0 out.1 out.2 e refl))
  ]

  -- One round of the relay over the store in memory, whose queue has no identifier twice: it
  -- publishes the messages of its batch in the order of the queue until one is refused, takes just
  -- the published ones from the queue, leaves the log as it is, and reports how many they are and
  -- the refusal.
  pub run_once-relayed :
      (r : Runner) (s : Stores) (w : W)
      → r.batch < int_mod
      → DistinctIds s.queue
      → run_once outbox_view publish wrap r s w
        ≡ relayed s s.queue 0 (publish_all publish (batch_of r s.queue) w)
  unfolding run_once
  run_once-relayed r s w h d =
      let whole = batch_of-append r s.queue in
      ap (λ msgs. send_loop outbox_view publish wrap msgs 0 s w) (unpublished-take r.batch s h)
      ∙ send_loop-relayed (batch_of r s.queue) (rest_of r s.queue) 0 s w (sym whole)
          (subst DistinctIds (sym whole) d)
      ∙ ap (λ queue. relayed s queue 0 (publish_all publish (batch_of r s.queue) w)) whole
