-- ===== src/Integration.antt =====
-- The two contexts together: the ordering context's reserver and publisher over the inventory's
-- internal HTTP adapter. The generated client and server carry a call over unchanged, except for a
-- date-time: `wire` is what their encoding and decoding make of it. The client decodes an answer with a
-- problem into an error that holds its status. `S` is the state that the inventory works on.
pub mod Reserve
pub mod Publish
pub mod Trace
pub mod Order
pub mod Deliver
pub mod InProcess
mod Tests
mod OrderTests
mod InProcessTests
use go_ddd_template.Base.{String, Option, none, some, map, ℕ, Time, Duration, Result, ok, err}
use mathlib.Core.Option
use go_ddd_template.Shared.Outbox.{Router}
use go_ddd_template.Inventory.Errors as Inv
use go_ddd_template.Inventory.Application.{Attempt, Deps}
use go_ddd_template.Inventory.InternalHttp as Server
use go_ddd_template.Ordering.Errors.{ClientError, problem_response, client_wrapped}
use go_ddd_template.Ordering.InventoryClient as Client

-- What the generated client returns for the answer of the server.
abbrev pub received : Result Inv.Error Server.Ack → Option ClientError
received (ok a) = none
received (err e) = some (client_wrapped (problem_response (Server.new_error e).status_code))

abbrev pub sent_line : Client.CommandLine → Server.CommandLine
sent_line l = record { sku = l.sku; quantity = l.quantity }

abbrev pub sent_command : Client.ReserveCommand → Server.ReserveCommand
sent_command c = record { ref = c.ref; lines = map sent_line c.lines }

abbrev pub sent_message : (Time → Time) → Client.InboundMessage → Server.InboundMessage
sent_message wire m = record {
  id = m.id;
  type_name = m.type_name;
  payload = m.payload;
  trace_id = m.trace_id;
  occurred_at = Option.map wire m.occurred_at;
}

-- A client whose calls the server's handlers answer.
abbrev pub client :
    {T S : Type 0}
    → (Time → Time)
    → Deps T S
    → (ℕ → Attempt)
    → Duration
    → Router Inv.Error S
    → Client.Invoker S
client wire deps attempts ttl router = record {
  reserve_stock = λ c s.
      let (s', out) = Server.reserve_stock deps attempts ttl (sent_command c) s in
      (s', received out);
  release_reservation =
      λ ref s. let (s', out) = Server.release_reservation deps attempts ref s in (s', received out);
  ingest_event = λ m s.
      let (s', out) = Server.ingest_event router (sent_message wire m) s in (s', received out);
}
