-- ===== src/Integration/InProcess.antt =====
-- The two contexts in one process: inProcessReserver of cmd/dev/acl.go and syncDeliverPublisher of
-- cmd/dev/publisher.go, over the inventory's module.
use go_ddd_template.Base.{
  Time, ℕ, String, true, none, some, Option, List, [], ◌∷◌, map, ◌≡◌, refl, ap, sym, Result, ok,
  err, if◌then◌else◌,
}
use go_ddd_template.Shared.Outbox.{Message, Router}
use go_ddd_template.Inventory.Errors as Inv
use go_ddd_template.Inventory.Application.{Attempt, Done}
use go_ddd_template.Inventory.Application.UseCases.{reserve_use_case}
use go_ddd_template.Inventory.Assembly as Assembly
use go_ddd_template.Inventory.Assembly.{Module, SkuQty}
use go_ddd_template.Ordering.Errors.{
  Error, wrapped, port_error, reservation_rejected, concurrency_conflict, other_error,
  is_port_error,
}
use go_ddd_template.Ordering.Ports
use go_ddd_template.Ordering.Ports.{StockReserver}
use go_ddd_template.Ordering.InventoryClient as Client
use go_ddd_template.Integration.{client}
use go_ddd_template.Integration.Reserve.{Told, inventory_line, reserve-reserve_use_case}

-- The text of the inventory's error goes into the message, and only the sentinel into the chain.
abbrev pub refused : Option Inv.Error → Option Error
refused none = none
refused (some e) = some (wrapped (port_error reservation_rejected))

-- An error of the inventory, of which the ordering context can tell the conflict that both share.
abbrev pub passed_on : Option Inv.Error → Option Error
passed_on none = none
passed_on (some e) = some (if Inv.is_conflict e then wrapped concurrency_conflict else other_error)

abbrev pub sku_qty : Ports.ReserveLine → SkuQty
sku_qty l = record { sku = l.sku; qty = l.qty }

-- Both fail, and then with ErrReservationRejected, or neither does.
abbrev pub SameRefusal : Option Error → Option Error → Type 0
SameRefusal none none = Unit
SameRefusal none (some f) = ⊥
SameRefusal (some e) none = ⊥
SameRefusal (some e) (some f) =
    (is_port_error e reservation_rejected ≡ true) × (is_port_error f reservation_rejected ≡ true)

same_lines :
    (lines : List Ports.ReserveLine)
    → map Assembly.to_reserve_line (map sku_qty lines) ≡ map inventory_line lines
same_lines [] = refl
same_lines (l ∷ lines) = ap (λ ls. inventory_line l ∷ ls) (same_lines lines)

Told-SameRefusal :
    (out : Result Inv.Error Done) (f : Option Error)
    → Told out f
    → SameRefusal (refused (Assembly.error_of out)) f
unfolding is_port_error
Told-SameRefusal (ok d) none t = tt
Told-SameRefusal (ok d) (some e) t = t
Told-SameRefusal (err e) none t = t
Told-SameRefusal (err e) (some f) t = (refl, t.0)

module _ {T S : Type 0} (m : Module T S) (attempts : ℕ → Attempt) where
  abbrev pub in_process_reserver : StockReserver S
  in_process_reserver = record {
    reserve = λ ref lines s.
        let (s', failure) = Assembly.reserve m attempts ref (map sku_qty lines) s in
        (s', refused failure);
    release =
        λ ref s. let (s', failure) = Assembly.release m attempts ref s in (s', passed_on failure);
  }

  abbrev pub sync_deliver : Message → S → S × Option Error
  sync_deliver msg s =
      let (s', failure) = Assembly.deliver_message m attempts msg s in (s', passed_on failure)

  -- The reserver of one process and the reserver over HTTP leave the inventory in the same state
  -- for the same reference and lines. Both return nil, or both return an error with
  -- ErrReservationRejected.
  pub in_process_reserver-reserve :
      (wire : Time → Time) (router : Router Inv.Error S) (ref : String)
      (lines : List Ports.ReserveLine) (s : S)
      → let near = in_process_reserver.reserve ref lines s in
        let far = Client.reserve (client wire m.deps attempts m.ttl router) ref lines s in
        (near.0 ≡ far.0) × SameRefusal near.1 far.1
  unfolding Assembly.reserve
  in_process_reserver-reserve wire router ref lines s =
      let (same, told) = reserve-reserve_use_case wire m.deps attempts m.ttl router ref lines s in
      rw (same_lines lines) (
        sym same,
        Told-SameRefusal
            (reserve_use_case m.deps m.ttl attempts
              (record { ref = ref; lines = map inventory_line lines }) s).1
            _ told,
      )
