-- ===== src/Shared/Outbox.antt =====
-- The transactional outbox: shared/outbox/outbox.go. `E` is the type of errors, `S` the state of a
-- message store, and `W` the state of whatever a publisher or a consumer reaches.
pub mod Memory
pub mod Relay
pub mod Drain
use go_ddd_template.Base.{
  ℕ, suc, String, Bool, true, false, Option, none, some, List, [], ◌∷◌, GoInt, Time, less_int,
  Result, ok, err, if◌then◌else◌,
}
use go_ddd_template.Base.Dict.{Dict, lookup, insert}

-- The bytes of a message, by what encoding/json finds in them: an object with text fields, or
-- nothing that it can decode.
pub data Payload : Type 0 where
  object : Dict String → Payload
  malformed : Payload

pub record Message : Type 0 where
  pub id : String
  pub type_name : String
  pub payload : Payload
  pub trace_id : String
  pub occurred_at : Time

-- The interface of a store.
pub record MessageStore {ℓ} (E S : Type ℓ) : Type ℓ where
  pub enqueue : Message → S → S × Option E
  pub unpublished : GoInt → S → Result E (List Message)
  pub mark_published : List String → S → S × Option E

-- The method of a publisher.
abbrev pub Publisher {ℓ} : Type ℓ → Type ℓ → Type ℓ
Publisher E W = Message → W → W × Option E

pub record Runner : Type 0 where
  pub interval : GoInt
  pub batch : GoInt

pub data RunnerOption : Type 0 where
  with_interval with_batch : GoInt → RunnerOption

unfoldable pub apply_option : RunnerOption → Runner → Runner
apply_option (with_interval d) r = if less_int 0 d then record r { interval = d } else r
apply_option (with_batch n) r = if less_int 0 n then record r { batch = n } else r

unfoldable pub apply_options : List RunnerOption → Runner → Runner
apply_options [] r = r
apply_options (o ∷ opts) r = apply_options opts (apply_option o r)

-- An interval of one second and batches of 100 to begin with.
unfoldable pub new_runner : List RunnerOption → Runner
unfolding apply_options apply_option
new_runner opts = apply_options opts (record { interval = 1_000_000_000; batch = 100 })

module _ {ℓ} {E S W : Type ℓ} (store : MessageStore E S) (publish : Publisher E W)
    (wrap : E → E) where
  -- The loop of RunOnce over the messages of a batch: the count and the error, and the states.
  unfoldable pub send_loop : List Message → ℕ → S → W → S × W × ℕ × Option E
  send_loop [] sent s w = (s, w, sent, none)
  send_loop (m ∷ msgs) sent s w =
      let (w', refused) = publish m w in
      elim refused [
        | some e ↦ (s, w', sent, some (wrap e))
        | none ↦
            let (s', failure) = store.mark_published (m.id ∷ []) s in
            elim failure [
              | some e ↦ (s', w', sent, some (wrap e))
              | none ↦ send_loop msgs (suc sent) s' w'
            ]
      ]

  unfoldable pub run_once : Runner → S → W → S × W × ℕ × Option E
  unfolding send_loop
  run_once r s w = elim (store.unpublished r.batch s) [
    | err e ↦ (s, w, 0, some (wrap e))
    | ok msgs ↦ send_loop msgs 0 s w
  ]

-- What Run waits for: a tick of its ticker, or the end of its context.
pub data Wake : Type 0 where
  tick cancelled : Wake

module _ {ℓ} {E S W : Type ℓ} (store : MessageStore E S) (publish : Publisher E W)
    (wrap : E → E) where
  -- Run over what wakes it, one after the other; an error of a round is only logged.
  unfoldable pub run : Runner → List Wake → S → W → S × W
  unfolding run_once
  run r [] s w = (s, w)
  run r (cancelled ∷ wakes) s w = (s, w)
  run r (tick ∷ wakes) s w =
      let (s', w', sent, failure) = run_once store publish wrap r s w in run r wakes s' w'

-- The router's map from message types to consumers.
abbrev pub Router {ℓ} : Type ℓ → Type ℓ → Type ℓ
Router E W = Dict (Message → W → W × Option E)

module _ {ℓ} {E W : Type ℓ} where
  unfoldable pub register : String → (Message → W → W × Option E) → Router E W → Router E W
  unfolding insert
  register type_name c routes = insert type_name c routes

  -- `no_route` is ErrNoRoute with its text.
  unfoldable pub deliver : E → Router E W → Message → W → W × Option E
  unfolding lookup
  deliver no_route routes m w = elim (lookup m.type_name routes) [
    | none ↦ (w, some no_route)
    | some c ↦ c m w
  ]
