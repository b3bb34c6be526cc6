-- ===== src/Shared/Outbox/Drain.antt =====
-- The relay drains the queue when nothing is refused, and the log keeps all that was committed.
use go_ddd_template.Base.{
  ℕ, zero, suc, ◌-◌, ◌≤◌, ◌<◌, ◌≡◌, refl, ap, sym, ◌∙◌, subst, Option, none, List, [], ◌∷◌, ◌++◌,
  int_mod, arith, length, length-drop, length-take, drop, append-nil,
}
use go_ddd_template.Shared.Outbox.{Message, Publisher, Runner, run_once, Wake, tick, run}
use go_ddd_template.Shared.Outbox.Memory.{Stores, outbox_view, commit_staged}
use go_ddd_template.Shared.Outbox.Relay.{DistinctIds, publish_all, batch_of, run_once-relayed}

eq_nil_of_length : (queue : List Message) → length queue ≤ 0 → queue ≡ []
eq_nil_of_length [] h = refl
eq_nil_of_length (m ∷ queue) h = absurd (omega arith)

batch_pos :
    (r : Runner) (queue : List Message)
    → 0 < r.batch
    → length queue - length (batch_of r queue) ≤ length queue - 1
batch_pos r queue h = ground (arith, length-take r.batch queue)

-- The ticker wakes Run so often.
abbrev pub ticks : ℕ → List Wake
ticks zero = []
ticks (suc k) = tick ∷ ticks k

module _ {E W : Type 0} (publish : Publisher E W) (wrap : E → E) where
  -- The relay's rounds, one after the other.
  repeat : ℕ → Runner → Stores → W → Stores × W
  repeat zero r s w = (s, w)
  repeat (suc k) r s w =
      let (s', w', sent, failure) = run_once outbox_view publish wrap r s w in repeat k r s' w'

  publish_all_accepted :
      ((m : Message) (w : W) → (publish m w).1 ≡ none)
      → (msgs : List Message) (w : W) → (publish_all publish msgs w).1 ≡ length msgs
  publish_all_accepted accepts [] w = refl
  publish_all_accepted accepts (m ∷ msgs) w =
      ground (arith, accepts m w, publish_all_accepted accepts msgs (publish m w).0)

  DistinctIds-drop : (n : ℕ) (queue : List Message) → DistinctIds queue → DistinctIds (drop n queue)
  DistinctIds-drop zero queue d = d
  DistinctIds-drop (suc n) [] d = tt
  DistinctIds-drop (suc n) (m ∷ queue) d = DistinctIds-drop n queue d.1

  -- A round with nothing refused takes the whole batch from the queue.
  queue-run_once :
      ((m : Message) (w : W) → (publish m w).1 ≡ none)
      → (r : Runner) (s : Stores) (w : W) → r.batch < int_mod
      → DistinctIds s.queue
      → (run_once outbox_view publish wrap r s w).0.queue
        ≡ drop (length (batch_of r s.queue)) s.queue
  queue-run_once accepts r s w h d =
      ap (λ (out : Stores × W × ℕ × Option E). out.0.queue)
        (run_once-relayed publish wrap r s w h d)
      ∙ ap (λ n. drop n s.queue) (publish_all_accepted accepts (batch_of r s.queue) w)

  -- With a publisher that refuses nothing and a positive batch, the relay empties a queue without
  -- repeated identifiers in as many rounds as it has messages, or more.
  repeat_drains :
      ((m : Message) (w : W) → (publish m w).1 ≡ none)
      → (k : ℕ) (r : Runner) (s : Stores) (w : W) → 0 < r.batch
      → r.batch < int_mod
      → DistinctIds s.queue
      → length s.queue ≤ k
      → (repeat k r s w).0.queue ≡ []
  unfolding repeat
  repeat_drains accepts zero r s w p h d l = eq_nil_of_length s.queue (omega arith)
  repeat_drains accepts (suc k) r s w p h d l =
      let n : ℕ = length (batch_of r s.queue) in
      let left = queue-run_once accepts r s w h d in
      repeat_drains accepts k r (run_once outbox_view publish wrap r s w).0
        (run_once outbox_view publish wrap r s w).1 p h
        (subst DistinctIds (sym left) (DistinctIds-drop n s.queue d))
        (omega (arith, ap length left, length-drop n s.queue, batch_pos r s.queue p))

  run-repeat :
      (k : ℕ) (r : Runner) (s : Stores) (w : W)
      → run outbox_view publish wrap r (ticks k) s w ≡ repeat k r s w
  unfolding run repeat
  run-repeat zero r s w = refl
  run-repeat (suc k) r s w =
      let out = run_once outbox_view publish wrap r s w in run-repeat k r out.0 out.1

  -- With a publisher that refuses nothing and a positive batch below 2 ^ 64, Run empties a queue
  -- without repeated identifiers once its ticker has woken it as often as the queue has messages,
  -- or more.
  pub run_drains :
      ((m : Message) (w : W) → (publish m w).1 ≡ none)
      → (k : ℕ) (r : Runner) (s : Stores) (w : W) → 0 < r.batch
      → r.batch < int_mod
      → DistinctIds s.queue
      → length s.queue ≤ k
      → (run outbox_view publish wrap r (ticks k) s w).0.queue ≡ []
  run_drains accepts k r s w pos b d h =
      ap (λ (out : Stores × W). out.0.queue) (run-repeat k r s w)
      ∙ repeat_drains accepts k r s w pos b d h

-- What is committed stands in the log after the old entries and in the queue after the unsent ones,
-- in both or in neither.
pub commit_staged-append :
    (msgs : List Message) (s : Stores)
    → commit_staged msgs s ≡ record { queue = s.queue ++ msgs; log = s.log ++ msgs }
unfolding commit_staged
commit_staged-append [] s = ground (arith, append-nil s.queue, append-nil s.log)
commit_staged-append (m ∷ msgs) s = refl
