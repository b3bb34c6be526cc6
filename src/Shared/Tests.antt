-- ===== src/Shared/Tests.antt =====
-- Runs of the theorems on the executor and on the outbox.
use go_ddd_template.Base.{
  ℕ, zero, suc, ◌<◌, ◌≡◌, refl, Bool, true, Option, none, some, List, [], ◌∷◌, ◌++◌, arith, GoInt,
  String,
}
use go_ddd_template.Shared.Uow.{Executor, run}
use go_ddd_template.Shared.Uow.Loop.{Ends, run-Ends}
use go_ddd_template.Shared.Uow.Outcome.{Outcome, run-Outcome}
use go_ddd_template.Shared.Outbox.{Message, malformed, Runner, run_once, run as run_relay}
use go_ddd_template.Shared.Outbox.Memory.{Stores, outbox_view}
use go_ddd_template.Shared.Outbox.Relay.{
  DistinctIds, relayed, publish_all, batch_of, run_once-relayed,
}
use go_ddd_template.Shared.Outbox.Drain.{ticks, run_drains}

-- A command that meets a conflict until its second attempt; the state counts the attempts.
abbrev second_time : ℕ → ℕ × Option Bool
second_time zero = (1, some true)
second_time (suc n) = (suc (suc n), none)

abbrev is_true : Bool → Bool
is_true b = b

abbrev no_wait : GoInt → ℕ → ℕ × Option Bool
no_wait d n = (n, none)

abbrev three_attempts : Executor
three_attempts = record { max_attempts = 3; base_backoff = 0 }

run-Ends_example :
    Ends is_true no_wait second_time three_attempts 1 0
      (run is_true no_wait second_time three_attempts 0).0
      (run is_true no_wait second_time three_attempts 0).1
run-Ends_example = run-Ends is_true no_wait second_time three_attempts 0 (omega arith) (omega arith)

second_time-Outcome : (n : ℕ) → n < 2 → Outcome (λ m. m < 2) (λ m. 1 < m) (second_time n)
second_time-Outcome zero h = omega arith
second_time-Outcome (suc n) h = omega arith

run-Outcome_example :
    Outcome (λ m. m < 2) (λ m. 1 < m) (run is_true no_wait second_time three_attempts 0)
run-Outcome_example =
    run-Outcome is_true no_wait second_time three_attempts (λ m. m < 2) (λ m. 1 < m)
      second_time-Outcome (λ d n h. h) 0 (omega arith) (omega arith) (omega arith)

abbrev message : String → Message
message id = record {
  id = id;
  type_name = "t";
  payload = malformed;
  trace_id = "";
  occurred_at = 1;
}

abbrev full : Stores
full = record {
  queue = message "a" ∷ message "b" ∷ message "c" ∷ [];
  log = message "a" ∷ message "b" ∷ message "c" ∷ [];
}

abbrev pairs : Runner
pairs = record { interval = 1; batch = 2 }

-- A broker that takes down what it gets.
abbrev send : Message → List Message → List Message × Option Bool
send m sent = (sent ++ m ∷ [], none)

abbrev same : Bool → Bool
same b = b

full-DistinctIds : DistinctIds full.queue
full-DistinctIds = ((refl, (refl, tt)), ((refl, tt), (tt, tt)))

run_once-relayed_example :
    run_once outbox_view send same pairs full []
    ≡ relayed send same full full.queue 0 (publish_all send (batch_of pairs full.queue) [])
run_once-relayed_example = run_once-relayed send same pairs full [] (omega arith) full-DistinctIds

run_drains_example : (run_relay outbox_view send same pairs (ticks 3) full []).0.queue ≡ []
run_drains_example =
    run_drains send same (λ m w. refl) 3 pairs full [] (omega arith) (omega arith) full-DistinctIds
      (omega arith)
