-- ===== src/Ordering/Application/Cancel.antt =====
-- Cancelling an order: application/cancel_order.go. The message to the inventory is enqueued in the
-- transaction of the order.
use go_ddd_template.Base.{
  ℕ, suc, String, Option, none, some, List, [], ◌∷◌, Clock, Result, ok, err, map_err,
}
use go_ddd_template.Ordering.Errors.{Error}
use go_ddd_template.Ordering.Values.{OrderId, new_order_id}
use go_ddd_template.Ordering.Event.{DomainEvent}
use go_ddd_template.Ordering.Order.{cancel, pull_events}
use go_ddd_template.Ordering.Validation.{locate}
use go_ddd_template.Ordering.Ports.{Repos, MessagePublisher}
use go_ddd_template.Ordering.Application.{Deps, run_command, to_outbox_message}

-- What an attempt reads: the clock, and what id.New makes for each message.
pub record Attempt : Type 0 where
  pub clock : Clock
  pub ids : ℕ → String

-- The attempts to come.
abbrev pub Attempts : Type 0
Attempts = ℕ → Attempt

-- The loop over the events, from the `i`-th message on.
unfoldable pub enqueue_events :
    {T : Type 0}
    → MessagePublisher T
    → String
    → (ℕ → String)
    → ℕ
    → List DomainEvent
    → T
    → T × Option Error
unfolding to_outbox_message
enqueue_events outbox trace_id ids i [] tx = (tx, none)
enqueue_events outbox trace_id ids i (e ∷ events) tx = elim (to_outbox_message e trace_id (ids i)) [
  | none ↦ enqueue_events outbox trace_id ids i events tx
  | some msg ↦
      let (tx', failure) = outbox msg tx in
      elim failure [
        | some e' ↦ (tx', some e')
        | none ↦ enqueue_events outbox trace_id ids (suc i) events tx'
      ]
]

-- The closure of Handle.
unfoldable pub cancel_command :
    {T : Type 0} → Repos T → OrderId → String → Attempts × T → (Attempts × T) × Option Error
unfolding cancel pull_events enqueue_events
cancel_command repos id trace_id (attempts, tx) =
    let next : Attempts = λ n. attempts (suc n) in
    let (tx', loaded) = repos.orders.load id tx in
    elim loaded [
      | err e ↦ ((next, tx'), some e)
      | ok o ↦
          let (o', refused) = cancel (attempts 0).clock o in
          elim refused [
            | some e ↦ ((next, tx'), some e)
            | none ↦
                let (tx'', saved, failure) = repos.orders.save o' tx' in
                elim failure [
                  | some e ↦ ((next, tx''), some e)
                  | none ↦
                      let (tx''', unsent) =
                        enqueue_events repos.outbox trace_id (attempts 0).ids 0
                          (pull_events saved).1 tx'' in
                      ((next, tx'''), unsent)
                ]
          ]
    ]

abbrev cancel_checked :
    {T S : Type 0} → Deps T S → Attempts → String → Result Error OrderId → S → S × Option Error
cancel_checked deps attempts trace_id (err e) s = (s, some e)
cancel_checked deps attempts trace_id (ok id) s =
    let ((vars, s'), failure) =
      run_command deps (cancel_command deps.work.repos id trace_id) (attempts, s) in
    (s', failure)

unfoldable pub cancel_order :
    {T S : Type 0} → Deps T S → Attempts → String → String → S → S × Option Error
unfolding new_order_id locate run_command
cancel_order deps attempts trace_id id_text s =
    cancel_checked deps attempts trace_id (map_err (locate "") (new_order_id id_text)) s
