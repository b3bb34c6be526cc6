-- ===== src/Inventory/StockItem.antt =====
-- The aggregate StockItem: domain/stock_item.go. A method returns the aggregate that it leaves and
-- its error, `none` for nil. The reservations are a Go map from the text of a reference.
pub mod Totals
pub mod Invariant
pub mod Reap
pub mod Run
pub mod Commands
pub mod Keys
use go_ddd_template.Base.{
  ◌+◌, String, Bool, true, false, not, ◌&&◌, ◌||◌, Option, none, some, List, [], ◌∷◌, ◌++◌, GoInt,
  Time, Duration, Clock, zero_time, is_empty, Result, ok, err, if◌then◌else◌,
}
use go_ddd_template.Base.Dict.{Dict, lookup, insert, delete}
use go_ddd_template.Inventory.Errors.{
  Error, sentinel, wrapped, violated, v_quantity, v_reservation_ref, invalid_sku,
  insufficient_stock, reservation_not_found,
}
use go_ddd_template.Inventory.Values.{
  Quantity, Sku, ReservationRef, zero_quantity, is_zero, add, sub, greater_than, ref_is_zero,
}
use go_ddd_template.Inventory.Reservation.{
  Reservation, pending, confirmed, is_pending, is_confirmed, is_expired,
}
use go_ddd_template.Inventory.Event.{
  DomainEvent, stock_replenished, stock_reserved, stock_reservation_confirmed, stock_released,
  stock_depleted,
}

pub record StockItem : Type 0 where
  pub id : String
  pub sku : Sku
  pub available : Quantity
  pub reservations : Dict Reservation
  pub version : GoInt
  pub events : List DomainEvent

unfoldable pub new_stock_item : String → Sku → Result Error StockItem
new_stock_item id sku =
    if is_empty id
    then err (wrapped (sentinel invalid_sku))
    else ok (record {
      id = id;
      sku = sku;
      available = zero_quantity;
      reservations = [];
      version = 0;
      events = [];
    })

-- m[r.ref.String()] = r for each of the list.
unfoldable pub index_reservations : Dict Reservation → List Reservation → Dict Reservation
index_reservations m [] = m
index_reservations m (r ∷ rs) = index_reservations (insert r.ref.value r m) rs

unfoldable pub reconstitute_stock_item :
    String → Sku → Quantity → GoInt → List Reservation → StockItem
unfolding index_reservations
reconstitute_stock_item id sku available version reservations = record {
  id = id;
  sku = sku;
  available = available;
  reservations = index_reservations [] reservations;
  version = version;
  events = [];
}

abbrev pub record_event : DomainEvent → StockItem → StockItem
record_event e s = record s { events = s.events ++ e ∷ [] }

unfoldable pub replenish : Clock → Quantity → StockItem → StockItem × Option Error
unfolding is_zero add
replenish clk qty s =
    if is_zero qty
    then (s, some (violated v_quantity))
    else let s' = record s { available = add s.available qty } in
      let e = stock_replenished s.sku.value qty.value s'.available.value (clk 0) in
      (record_event e s', none)

abbrev pub pending_reservation : Time → ReservationRef → Quantity → Duration → Reservation
pending_reservation now ref qty ttl = record {
  ref = ref;
  qty = qty;
  status = pending;
  expires_at = now + ttl;
}

abbrev pub confirmed_reservation : Reservation → Reservation
confirmed_reservation r = record r { status = confirmed; expires_at = zero_time }

-- The state after a new pending reservation, with its events.
unfoldable pub hold :
    Clock → ReservationRef → Quantity → Duration → Quantity → StockItem → StockItem
unfolding is_zero insert
hold clk ref qty ttl remaining s =
    let r = pending_reservation (clk 0) ref qty ttl in
    let s' = record s { available = remaining; reservations = insert ref.value r s.reservations } in
    let s'' =
      record_event (stock_reserved s.sku.value ref.value qty.value remaining.value (clk 1)) s' in
    if is_zero remaining then record_event (stock_depleted s.sku.value (clk 2)) s'' else s''

unfoldable pub reserve :
    Clock → ReservationRef → Quantity → Duration → StockItem → StockItem × Option Error
unfolding is_zero greater_than sub lookup hold
reserve clk ref qty ttl s =
    if ref_is_zero ref
    then (s, some (violated v_reservation_ref))
    else if is_zero qty
    then (s, some (violated v_quantity))
    else elim (lookup ref.value s.reservations) [
      | some held ↦ (s, none)
      | none ↦
          if greater_than qty s.available
          then (s, some (wrapped (sentinel insufficient_stock)))
          else elim (sub s.available qty) [
            | err e ↦ (s, some e)
            | ok remaining ↦ (hold clk ref qty ttl remaining s, none)
          ]
    ]

unfoldable pub confirm : Clock → ReservationRef → StockItem → StockItem × Option Error
unfolding lookup insert
confirm clk ref s = elim (lookup ref.value s.reservations) [
  | none ↦ (s, some (wrapped (sentinel reservation_not_found)))
  | some r ↦
      if is_confirmed r.status
      then (s, none)
      else let r' = confirmed_reservation r in
        let s' = record s { reservations = insert ref.value r' s.reservations } in
        (record_event (stock_reservation_confirmed s.sku.value ref.value (clk 0)) s', none)
]

unfoldable pub release : Clock → ReservationRef → StockItem → StockItem × Option Error
unfolding lookup delete add
release clk ref s = elim (lookup ref.value s.reservations) [
  | none ↦ (s, none)
  | some r ↦
      let s' = record s {
        available = add s.available r.qty;
        reservations = delete ref.value s.reservations;
      } in
      let e = stock_released s.sku.value ref.value r.qty.value s'.available.value (clk 0) in
      (record_event e s', none)
]

-- The test of ReapExpired: a pending reservation whose time has come.
unfoldable pub is_reapable : Time → Reservation → Bool
unfolding is_expired
is_reapable now r = is_pending r.status && is_expired r now

-- One round of the loop of ReapExpired, over the aggregate and the events collected so far.
unfoldable pub reap_entry :
    Time → String × Reservation → StockItem × List DomainEvent → StockItem × List DomainEvent
unfolding is_reapable add delete
reap_entry now (key, r) (s, events) =
    if not (is_pending r.status) || not (is_expired r now)
    then (s, events)
    else let s' = record s {
      available = add s.available r.qty;
      reservations = delete key s.reservations;
    } in
      let e = stock_released s.sku.value r.ref.value r.qty.value s'.available.value now in
      (s', events ++ e ∷ [])

unfoldable pub reap_loop :
    Time → Dict Reservation → StockItem × List DomainEvent → StockItem × List DomainEvent
reap_loop now [] acc = acc
reap_loop now (entry ∷ rest) acc = reap_loop now rest (reap_entry now entry acc)

-- The released events are returned, not recorded.
unfoldable pub reap_expired : Time → StockItem → StockItem × List DomainEvent
unfolding reap_loop reap_entry
reap_expired now s = reap_loop now s.reservations (s, [])

unfoldable pub sum_reservations : Quantity → Dict Reservation → Quantity
unfolding add
sum_reservations total [] = total
sum_reservations total ((key, r) ∷ rest) = sum_reservations (add total r.qty) rest

-- Derived: the sum of the reservations.
unfoldable pub reserved : StockItem → Quantity
unfolding sum_reservations
reserved s = sum_reservations zero_quantity s.reservations

unfoldable pub reservations_of : Dict Reservation → List Reservation
reservations_of [] = []
reservations_of ((key, r) ∷ rest) = r ∷ reservations_of rest

unfoldable pub mark_persisted : GoInt → StockItem → StockItem
mark_persisted version s = record s { version = version }

unfoldable pub pull_events : StockItem → StockItem × List DomainEvent
pull_events s = (record s { events = [] }, s.events)

unfoldable pub has_reservation : ReservationRef → StockItem → Bool
unfolding lookup
has_reservation ref s = elim (lookup ref.value s.reservations) [ some r ↦ true | none ↦ false ]
