-- ===== src/Integration/Order.antt =====
-- Placing an order over both contexts: place_order.go over the ordering context's store in memory, whose
-- reserver is aclhttp.go over the inventory's use case and its store in memory.
use go_ddd_template.Base.{
  ℕ, Time, ◌<◌, ◌≡◌, refl, sym, subst, String, Option, none, some, List, map, GoInt, Duration,
  Result, ok, err, arith, sign_bit,
}
use go_ddd_template.Shared.Uow.{Executor}
use go_ddd_template.Shared.Outbox.{Router}
use go_ddd_template.Inventory.Errors as Inv
use go_ddd_template.Inventory.Event.{DomainEvent as StockEvent}
use go_ddd_template.Inventory.Store.Unit as Stock
use go_ddd_template.Inventory.Application.{Attempt, Done}
use go_ddd_template.Inventory.Application.Commands.{ReserveInput}
use go_ddd_template.Inventory.Application.UseCases.{reserve_use_case}
use go_ddd_template.Inventory.Application.Rollback.{memory_deps}
use go_ddd_template.Inventory.Application.Reserved
use go_ddd_template.Inventory.Application.Reserved.{reserve_use_case-IsReserved}
use go_ddd_template.Ordering.Errors.{Error}
use go_ddd_template.Ordering.Event.{DomainEvent}
use go_ddd_template.Ordering.Ports.{ReserveLine, StockReserver}
use go_ddd_template.Ordering.Store.Unit.{World}
use go_ddd_template.Ordering.Application.Committed as Ordering
use go_ddd_template.Ordering.InventoryClient as Client
use go_ddd_template.Integration.{client}
use go_ddd_template.Integration.Reserve.{Told, inventory_line, reserve-reserve_use_case}

-- A reserver that works on the inventory beside the ordering context's store.
abbrev pub outside_reserver : {W : Type 0} → StockReserver W → StockReserver (World W)
outside_reserver r = record {
  reserve = λ ref lines w.
      let (outside', failure) = r.reserve ref lines w.outside in
      (record w { outside = outside' }, failure);
  release = λ ref w.
      let (outside', failure) = r.release ref w.outside in
      (record w { outside = outside' }, failure);
}

-- The reserver of the ordering context over the inventory's use case, for its executor, dispatcher and
-- timer.
abbrev pub stock_reserver :
    (Time → Time)
    → Executor
    → (List StockEvent → Stock.World → Stock.World)
    → (GoInt → Stock.World → Stock.World × Option Inv.Error)
    → (ℕ → Attempt)
    → Duration
    → Router Inv.Error Stock.World
    → StockReserver (World Stock.World)
stock_reserver wire exec dispatch timer attempts ttl router =
    outside_reserver
      (Client.reserver (client wire (memory_deps exec dispatch timer) attempts ttl router))

-- What the inventory is asked for is reserved.
abbrev pub IsReserved : String → List ReserveLine → Stock.World → Type 0
IsReserved ref lines w =
    Reserved.IsReserved (record { ref = ref; lines = map inventory_line lines }) w

Told-success :
    (out : Result Inv.Error Done) (f : Option Error) → Told out f → f ≡ none → out ≡ ok tt
Told-success (ok d) f t h = refl
Told-success (err e) none t h = absurd t
Told-success (err e) (some x) t h = absurd (ground (arith, h))

module _ (wire : Time → Time) (exec : Executor)
    (dispatch : List StockEvent → Stock.World → Stock.World)
    (timer : GoInt → Stock.World → Stock.World × Option Inv.Error) (h : 0 < exec.max_attempts)
    (b : exec.max_attempts < sign_bit)
    (keeps : (events : List StockEvent) (w : Stock.World) → (dispatch events w).rows ≡ w.rows)
    (attempts : ℕ → Attempt) (ttl : Duration) (router : Router Inv.Error Stock.World) where
  abbrev pub inventory : Client.Invoker Stock.World
  inventory = client wire (memory_deps exec dispatch timer) attempts ttl router

  -- A Reserve of the ordering context that returns nil has the inventory's committed rows hold the
  -- reference for each of the lines.
  pub reserve-IsReserved :
      (ref : String) (lines : List ReserveLine) (w : Stock.World)
      → (Client.reserve inventory ref lines w).1 ≡ none
      → IsReserved ref lines (Client.reserve inventory ref lines w).0
  reserve-IsReserved ref lines w accepted =
      let stock = memory_deps exec dispatch timer in
      let (same, told) = reserve-reserve_use_case wire stock attempts ttl router ref lines w in
      let input : ReserveInput = record { ref = ref; lines = map inventory_line lines } in
      let done = Told-success (reserve_use_case stock ttl attempts input w).1 _ told accepted in
      subst (IsReserved ref lines) (sym same)
        (reserve_use_case-IsReserved exec dispatch timer h b keeps attempts ttl input w done)
