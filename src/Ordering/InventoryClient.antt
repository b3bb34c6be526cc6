-- ===== src/Ordering/InventoryClient.antt =====
-- The ordering context's calls of the inventory over HTTP: aclhttp.go and transport.go of
-- contexts/ordering/internal/adapter/outbound/aclhttp, and publisher.go of eventhttp beside it. The
-- client is generated code (clients/inventory/invclient), an argument here; `S` is the state that it
-- reaches.
use go_ddd_template.Base.{
  ℕ, String, Option, none, some, List, map, GoInt, Time, is_zero_time, is_empty, ltb, if◌then◌else◌,
}
use go_ddd_template.Base.Dict.{Dict, insert}
use go_ddd_template.Shared.Outbox.{Message, Payload, Publisher}
use go_ddd_template.Shared.Correlation.{traceparent}
use go_ddd_template.Ordering.Errors.{
  Error, ClientError, problem_response, client_wrapped, transport_error, wrapped, joined,
  port_error, client_error, reservation_rejected, reservation_unavailable,
}
use go_ddd_template.Ordering.Ports
use go_ddd_template.Ordering.Ports.{StockReserver}

-- The generated lines and body of a ReserveCommand, as the client has them.
pub record CommandLine : Type 0 where
  pub sku : String
  pub quantity : GoInt

pub record ReserveCommand : Type 0 where
  pub ref : String
  pub lines : List CommandLine

pub record InboundMessage : Type 0 where
  pub id : String
  pub type_name : String
  pub payload : Payload
  pub trace_id : Option String
  pub occurred_at : Option Time

-- The generated invclient.Invoker; no code reads the answer of a call that succeeds.
pub record Invoker (S : Type 0) : Type 0 where
  pub reserve_stock : ReserveCommand → S → S × Option ClientError
  pub release_reservation : String → S → S × Option ClientError
  pub ingest_event : InboundMessage → S → S × Option ClientError

-- errors.As for the problem response: its status.
unfoldable pub as_problem : ClientError → Option ℕ
as_problem (problem_response status) = some status
as_problem (client_wrapped c) = as_problem c
as_problem transport_error = none

abbrev rejection : ClientError → Error
rejection c = wrapped (joined (port_error reservation_rejected) (client_error c))

abbrev unavailability : ClientError → Error
unavailability c = wrapped (
    joined (port_error reservation_rejected)
      (joined (port_error reservation_unavailable) (client_error c)))

unfoldable pub translate : ClientError → Error
unfolding as_problem
translate c = elim (as_problem c) [
  | none ↦ unavailability c
  | some status ↦ if ltb status 500 then rejection c else unavailability c
]

abbrev pub translated : Option ClientError → Option Error
translated none = none
translated (some c) = some (translate c)

unfoldable pub to_client_lines : List Ports.ReserveLine → List CommandLine
to_client_lines lines = map (λ l. record { sku = l.sku; quantity = l.qty }) lines

module _ {S : Type 0} (client : Invoker S) where
  unfoldable pub reserve : String → List Ports.ReserveLine → S → S × Option Error
  unfolding translate to_client_lines
  reserve ref lines s =
      let (s', failure) =
        client.reserve_stock (record { ref = ref; lines = to_client_lines lines }) s in
      (s', translated failure)

  unfoldable pub release : String → S → S × Option Error
  unfolding translate
  release ref s = let (s', failure) = client.release_reservation ref s in (s', translated failure)

  abbrev pub reserver : StockReserver S
  reserver = record { reserve = reserve; release = release }

abbrev pub wrap_failure : Option ClientError → Option Error
wrap_failure none = none
wrap_failure (some c) = some (wrapped (client_error c))

unfoldable pub to_inbound : Message → InboundMessage
to_inbound m = record {
  id = m.id;
  type_name = m.type_name;
  payload = m.payload;
  trace_id = if is_empty m.trace_id then none else some m.trace_id;
  occurred_at = if is_zero_time m.occurred_at then none else some m.occurred_at;
}

module _ {S : Type 0} (client : Invoker S) where
  unfoldable pub publish : Publisher Error S
  unfolding to_inbound
  publish m s =
      let (s', failure) = client.ingest_event (to_inbound m) s in (s', wrap_failure failure)

abbrev pub header_correlation_id : String
header_correlation_id = "X-Correlation-ID"

abbrev pub header_traceparent : String
header_traceparent = "traceparent"

abbrev pub with_traceparent : Option String → Dict String → Dict String
with_traceparent none headers = headers
with_traceparent (some tp) headers = insert header_traceparent tp headers

-- RoundTrip: the headers that go out, where `cid` is the correlation identifier of the context, or
-- empty, and `new_id` what id.New makes.
unfoldable pub outgoing_headers : String → String → Dict String → Dict String
outgoing_headers new_id cid headers =
    if is_empty cid
    then headers
    else with_traceparent (traceparent new_id cid) (insert header_correlation_id cid headers)
