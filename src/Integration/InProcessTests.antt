-- ===== src/Integration/InProcessTests.antt =====
-- Runs of the theorems on the inventory's module beside the ordering context.
use go_ddd_template.Base.{◌≡◌, refl, [], ◌∷◌, List}
use go_ddd_template.Shared.Outbox.{Message, Router, object}
use go_ddd_template.Inventory.Errors as Inv
use go_ddd_template.Inventory.Application.UseCases.{confirm_use_case}
use go_ddd_template.Inventory.Assembly.{Module, assemble_module, deliver_message, release}
use go_ddd_template.Inventory.Store.Unit.{World, Tx, memory_unit}
use go_ddd_template.Inventory.StoreTests.{warehouse, no_wait, tries}
use go_ddd_template.Ordering.Values.{ReservationRef}
use go_ddd_template.Ordering.Application.{
  confirm_reservation_message, to_outbox_message, payload_fields,
}
use go_ddd_template.Ordering.Ports
use go_ddd_template.Ordering.InventoryClient as Client
use go_ddd_template.Integration.{client}
use go_ddd_template.Integration.Deliver.{told, messages_arrive}
use go_ddd_template.Integration.InProcess.{
  in_process_reserver, SameRefusal, in_process_reserver-reserve,
}
use go_ddd_template.Integration.Tests.{to_second}

abbrev inventory : Module Tx World
inventory = assemble_module memory_unit no_wait 0 0 0

abbrev r0 : ReservationRef
r0 = record { value = "r0" }

abbrev cancellation : Message
cancellation = record {
  id = "m-1";
  type_name = "ordering.order.cancelled";
  payload = object (("reservation_ref", "r0") ∷ ("order_id", "order-1") ∷ []);
  trace_id = "";
  occurred_at = 100;
}

messages_arrive_example :
    (deliver_message inventory tries (confirm_reservation_message r0 "" "m-1" 100) warehouse ≡ (
      (confirm_use_case inventory.deps tries "r0" warehouse).0,
      told (confirm_use_case inventory.deps tries "r0" warehouse).1,
    ))
    × (deliver_message inventory tries cancellation warehouse
        ≡ release inventory tries "r0" warehouse)
unfolding to_outbox_message payload_fields
messages_arrive_example =
    messages_arrive inventory tries r0 "order-1" "" "m-1" 100 cancellation warehouse refl refl

abbrev no_routes : Router Inv.Error World
no_routes = []

abbrev wish : List Ports.ReserveLine
wish = record { sku = "BOLT"; qty = 3 } ∷ []

in_process_reserver-reserve_example :
    (((in_process_reserver inventory tries).reserve "order-1" wish warehouse).0
      ≡ (Client.reserve
          (client to_second inventory.deps tries inventory.ttl no_routes)
          "order-1"
          wish
          warehouse).0)
    × SameRefusal
        ((in_process_reserver inventory tries).reserve "order-1" wish warehouse).1
        (Client.reserve
          (client to_second inventory.deps tries inventory.ttl no_routes)
          "order-1"
          wish
          warehouse).1
in_process_reserver-reserve_example =
    in_process_reserver-reserve inventory tries to_second no_routes "order-1" wish warehouse
