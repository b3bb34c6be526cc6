-- ===== src/Integration/Tests.antt =====
-- Runs of the theorems on the two contexts together, the inventory's store in memory.
use go_ddd_template.Base.{Time, ◌-◌, ◌%◌, ◌≡◌, refl, String, List, map, [], ◌∷◌}
use go_ddd_template.Base.Dict.{Dict, lookup}
use go_ddd_template.Shared.Correlation.{is_hex, is_hex_digit}
use go_ddd_template.Shared.Correlation.Http.{correlation_id_from_request}
use go_ddd_template.Shared.Outbox.{Message, malformed, Router, deliver}
use go_ddd_template.Inventory.Errors as Inv
use go_ddd_template.Inventory.Application.{Deps}
use go_ddd_template.Inventory.Application.UseCases.{reserve_use_case}
use go_ddd_template.Inventory.Application.Rollback.{memory_deps}
use go_ddd_template.Inventory.InternalHttp as Server
use go_ddd_template.Inventory.Store.Unit.{World, Tx}
use go_ddd_template.Inventory.StoreTests.{warehouse, three_attempts, no_dispatch, no_wait, tries}
use go_ddd_template.Ordering.Errors.{client_wrapped, problem_response}
use go_ddd_template.Ordering.Ports
use go_ddd_template.Ordering.Http.{new_error}
use go_ddd_template.Ordering.InventoryClient as Client
use go_ddd_template.Ordering.InventoryClient.{outgoing_headers}
use go_ddd_template.Integration.{client}
use go_ddd_template.Integration.Reserve.{
  Told, inventory_line, is_named, refusal, reserve-reserve_use_case, refused_order,
}
use go_ddd_template.Integration.Publish.{SameSuccess, publish-deliver}
use go_ddd_template.Integration.Trace.{correlation_id_from_request-outgoing_headers}

-- A wire that drops the fractions of a second.
abbrev pub to_second : Time → Time
to_second t = t - t % 1_000_000_000

abbrev deps : Deps Tx World
deps = memory_deps three_attempts no_dispatch no_wait

abbrev no_routes : Router Inv.Error World
no_routes = []

abbrev wish : List Ports.ReserveLine
wish = record { sku = "BOLT"; qty = 3 } ∷ []

reserve-reserve_use_case_example :
    ((Client.reserve (client to_second deps tries 50 no_routes) "order-1" wish warehouse).0
      ≡ (reserve_use_case deps 50 tries
          (record { ref = "order-1"; lines = map inventory_line wish })
          warehouse).0)
    × Told
        (reserve_use_case deps 50 tries
          (record { ref = "order-1"; lines = map inventory_line wish })
          warehouse).1
        (Client.reserve (client to_second deps tries 50 no_routes) "order-1" wish warehouse).1
reserve-reserve_use_case_example =
    reserve-reserve_use_case to_second deps tries 50 no_routes "order-1" wish warehouse

-- What the inventory answers to a request for more than it has.
abbrev refused : Inv.Error
refused = Inv.sentinel Inv.insufficient_stock

refused_order_example :
    (
      (new_error (
          Client.translate (
            client_wrapped (problem_response (Server.new_error refused).status_code)))).status_code,
      (new_error (
          Client.translate (
            client_wrapped
              (problem_response (Server.new_error refused).status_code)))).response.type_uri,
    )
    ≡ refusal (is_named refused)
refused_order_example = refused_order refused

abbrev message : Message
message = record {
  id = "m-1";
  type_name = "t";
  payload = malformed;
  trace_id = "";
  occurred_at = 1_500_000_000;
}

-- It arrives without the half of a second.
abbrev arrived : Message
arrived = record message { occurred_at = 1_000_000_000 }

publish-deliver_example :
    ((Client.publish (client to_second deps tries 50 no_routes) message warehouse).0
      ≡ (deliver (Inv.wrapped Inv.no_route) no_routes arrived warehouse).0)
    × SameSuccess
        (deliver (Inv.wrapped Inv.no_route) no_routes arrived warehouse).1
        (Client.publish (client to_second deps tries 50 no_routes) message warehouse).1
publish-deliver_example = publish-deliver to_second deps tries 50 no_routes message warehouse

abbrev headers : Dict String
headers = ("accept", "application/json") ∷ []

abbrev trace : String
trace = "4bf92f3577b34da6a3ce929d0e0e4736"

correlation_id_from_request-outgoing_headers_example :
    correlation_id_from_request (outgoing_headers "00f067aa0ba902b70000000000000001" trace headers)
    ≡ trace
unfolding is_hex is_hex_digit lookup
correlation_id_from_request-outgoing_headers_example =
    correlation_id_from_request-outgoing_headers trace "00f067aa0ba902b70000000000000001" headers
      refl refl refl
