-- ===== src/Ordering/Shipment/Life.antt =====
-- The life of a Shipment after NewShipment: histories of MarkShipped, MarkPersisted and PullEvents,
-- with the events that the callers have pulled.
use go_ddd_template.Base.{
  ◌≡◌, refl, Option, none, some, List, [], ◌∷◌, ◌++◌, arith, GoInt, Clock, append-nil, append_assoc,
}
use go_ddd_template.Ordering.Values.{ShipmentId, OrderId, TrackingNumber}
use go_ddd_template.Ordering.Event.{DomainEvent, shipment_dispatched}
use go_ddd_template.Ordering.Shipment.{
  ShipmentStatus, preparing, shipped, Shipment, new_shipment, mark_shipped, mark_persisted,
  pull_events, no_tracking_number,
}

pub data Command : Type 0 where
  do_ship : Clock → TrackingNumber → Command
  do_persist : GoInt → Command
  do_pull : Command

-- The shipment, and all events pulled so far.
pub record History : Type 0 where
  pub shipment : Shipment
  pub pulled : List DomainEvent

abbrev pub act : Command → History → History
act (do_ship clk tn) h = record h { shipment = (mark_shipped clk tn h.shipment).0 }
act (do_persist v) h = record h { shipment = mark_persisted v h.shipment }
act do_pull h =
    let (s, events) = pull_events h.shipment in record { shipment = s; pulled = h.pulled ++ events }

abbrev pub act_all : List Command → History → History
act_all [] h = h
act_all (c ∷ cs) h = act_all cs (act c h)

abbrev pub all_events : History → List DomainEvent
all_events h = h.pulled ++ h.shipment.events

-- The first MarkShipped of the commands.
abbrev pub first_ship : List Command → Option (Clock × TrackingNumber)
first_ship [] = none
first_ship (do_ship clk tn ∷ cs) = some (clk, tn)
first_ship (do_persist v ∷ cs) = first_ship cs
first_ship (do_pull ∷ cs) = first_ship cs

-- The status, the tracking number and the events that the first MarkShipped leaves.
abbrev pub dispatched :
    ShipmentId
    → OrderId
    → Option (Clock × TrackingNumber)
    → ShipmentStatus × TrackingNumber × List DomainEvent
dispatched id order_id none = (preparing, no_tracking_number, [])
dispatched id order_id (some (clk, tn)) =
    (shipped, tn, shipment_dispatched id.value order_id.value tn.value (clk 0) ∷ [])

abbrev view : History → ShipmentStatus × TrackingNumber × List DomainEvent
view h = (h.shipment.status, h.shipment.tracking_number, all_events h)

-- Once it is shipped, nothing changes what is seen.
view_shipped :
    (cs : List Command) (h : History) → h.shipment.status ≡ shipped → view (act_all cs h) ≡ view h
unfolding mark_shipped mark_persisted pull_events
view_shipped [] h e = refl
view_shipped (do_ship clk tn ∷ cs) h e = ground (arith, view_shipped cs (act (do_ship clk tn) h))
view_shipped (do_persist v ∷ cs) h e = view_shipped cs (act (do_persist v) h) e
view_shipped (do_pull ∷ cs) h e =
    ground (arith, view_shipped cs (act do_pull h), append-nil (h.pulled ++ h.shipment.events))

view_preparing :
    (cs : List Command) (h : History)
    → view h ≡ dispatched h.shipment.id h.shipment.order_id none
    → view (act_all cs h) ≡ dispatched h.shipment.id h.shipment.order_id (first_ship cs)
unfolding mark_shipped mark_persisted pull_events
view_preparing [] h e = e
view_preparing (do_ship clk tn ∷ cs) h e =
    let x =
      shipment_dispatched h.shipment.id.value h.shipment.order_id.value tn.value (clk 0) ∷ [] in
    ground
      (arith, view_shipped cs (act (do_ship clk tn) h), append_assoc h.pulled h.shipment.events x)
view_preparing (do_persist v ∷ cs) h e = view_preparing cs (act (do_persist v) h) e
view_preparing (do_pull ∷ cs) h e =
    ground (arith, view_preparing cs (act do_pull h), append-nil (h.pulled ++ h.shipment.events))

module _ (id : ShipmentId) (order_id : OrderId) (cs : List Command) where
  abbrev pub after_commands : History
  after_commands = act_all cs (record { shipment = new_shipment id order_id; pulled = [] })

  -- After any history of MarkShipped, MarkPersisted and PullEvents, a new shipment has the status,
  -- the tracking number and the one event of the first MarkShipped among them; without one it is
  -- preparing, untracked and has no event.
  pub shipment_life :
      (
        after_commands.shipment.status,
        after_commands.shipment.tracking_number,
        all_events after_commands,
      )
      ≡ dispatched id order_id (first_ship cs)
  unfolding new_shipment
  shipment_life =
      view_preparing cs (record { shipment = new_shipment id order_id; pulled = [] }) refl
