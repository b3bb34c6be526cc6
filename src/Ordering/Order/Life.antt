-- ===== src/Ordering/Order/Life.antt =====
-- The life of an Order after NewOrder: histories of Cancel, MarkPersisted and PullEvents, with the
-- events that the callers have pulled.
use go_ddd_template.Base.{
  ℕ, suc, ◌+◌, ◌≡◌, refl, Bool, true, false, List, [], ◌∷◌, ◌++◌, arith, GoInt, Clock,
  if◌then◌else◌, ap, append-nil, ◌∙◌,
}
use go_ddd_template.Ordering.Values.{OrderId, CustomerId, ReservationRef}
use go_ddd_template.Ordering.Money.{Money}
use go_ddd_template.Ordering.Event.{DomainEvent, order_placed, order_cancelled, shipment_dispatched}
use go_ddd_template.Ordering.Order.{
  OrderLine, OrderStatus, confirmed, cancelled, is_confirmed, Order, placed, cancel, mark_persisted,
  pull_events,
}

pub data Command : Type 0 where
  do_cancel : Clock → Command
  do_persist : GoInt → Command
  do_pull : Command

-- The order, and all events pulled so far.
pub record History : Type 0 where
  pub order : Order
  pub pulled : List DomainEvent

abbrev pub act : Command → History → History
act (do_cancel clk) h = record h { order = (cancel clk h.order).0 }
act (do_persist v) h = record h { order = mark_persisted v h.order }
act do_pull h =
    let (o, events) = pull_events h.order in record { order = o; pulled = h.pulled ++ events }

abbrev pub act_all : List Command → History → History
act_all [] h = h
act_all (c ∷ cs) h = act_all cs (act c h)

abbrev pub all_events : History → List DomainEvent
all_events h = h.pulled ++ h.order.events

abbrev pub count_cancelled : List DomainEvent → ℕ
count_cancelled [] = 0
count_cancelled (order_placed i c r a m t ∷ es) = count_cancelled es
count_cancelled (order_cancelled i r t ∷ es) = suc (count_cancelled es)
count_cancelled (shipment_dispatched i o n t ∷ es) = count_cancelled es

count_cancelled-append :
    (xs ys : List DomainEvent)
    → count_cancelled (xs ++ ys) ≡ count_cancelled xs + count_cancelled ys
count_cancelled-append [] ys = ground arith
count_cancelled-append (order_placed i c r a m t ∷ xs) ys = count_cancelled-append xs ys
count_cancelled-append (order_cancelled i r t ∷ xs) ys =
    ground (arith, count_cancelled-append xs ys)
count_cancelled-append (shipment_dispatched i o n t ∷ xs) ys = count_cancelled-append xs ys

-- The commands that would cancel.
abbrev pub cancels : List Command → Bool
cancels [] = false
cancels (do_cancel clk ∷ cs) = true
cancels (do_persist v ∷ cs) = cancels cs
cancels (do_pull ∷ cs) = cancels cs

abbrev pub status_after : List Command → OrderStatus → OrderStatus
status_after cs st = if is_confirmed st then (if cancels cs then cancelled else st) else st

abbrev cancelled_once : Order → ℕ
cancelled_once o = if is_confirmed o.status then 0 else 1

status_act :
    (c : Command) (cs : List Command) (h : History)
    → status_after cs (act c h).order.status ≡ status_after (c ∷ cs) h.order.status
unfolding cancel mark_persisted pull_events
status_act (do_cancel clk) cs h = ground arith
status_act (do_persist v) cs h = refl
status_act do_pull cs h = refl

status_act_all :
    (cs : List Command) (h : History) → (act_all cs h).order.status ≡ status_after cs h.order.status
status_act_all [] h = ground arith
status_act_all (c ∷ cs) h = ground (arith, status_act_all cs (act c h), status_act c cs h)

-- What no command changes.
abbrev pub fixed_part : Order → OrderId × CustomerId × List OrderLine × Money × ReservationRef
fixed_part o = (o.id, o.customer, o.lines, o.total, o.reservation_ref)

fixed_act : (c : Command) (h : History) → fixed_part (act c h).order ≡ fixed_part h.order
unfolding cancel mark_persisted pull_events
fixed_act (do_cancel clk) h = ground arith
fixed_act (do_persist v) h = refl
fixed_act do_pull h = refl

fixed_act_all :
    (cs : List Command) (h : History) → fixed_part (act_all cs h).order ≡ fixed_part h.order
fixed_act_all [] h = refl
fixed_act_all (c ∷ cs) h = fixed_act_all cs (act c h) ∙ fixed_act c h

once_act :
    (c : Command) (h : History)
    → count_cancelled (all_events h) ≡ cancelled_once h.order
    → count_cancelled (all_events (act c h)) ≡ cancelled_once (act c h).order
unfolding cancel mark_persisted pull_events
once_act (do_cancel clk) h e =
    let more = order_cancelled h.order.id.value h.order.reservation_ref.value (clk 0) ∷ [] in
    ground (
      arith,
      count_cancelled-append h.pulled h.order.events,
      count_cancelled-append h.pulled (h.order.events ++ more),
      count_cancelled-append h.order.events more,
    )
once_act (do_persist v) h e = e
once_act do_pull h e = ap count_cancelled (append-nil (h.pulled ++ h.order.events)) ∙ e

once_act_all :
    (cs : List Command) (h : History)
    → count_cancelled (all_events h) ≡ cancelled_once h.order
    → count_cancelled (all_events (act_all cs h)) ≡ cancelled_once (act_all cs h).order
once_act_all [] h e = e
once_act_all (c ∷ cs) h e = once_act_all cs (act c h) (once_act c h e)

module _ (clk : Clock) (id : OrderId) (customer : CustomerId) (lines : List OrderLine)
    (total : Money) (cs : List Command) where
  abbrev pub after_commands : History
  after_commands = act_all cs (record { order = placed clk id customer lines total; pulled = [] })

  -- After any history of Cancel, MarkPersisted and PullEvents, an order that NewOrder placed is
  -- cancelled exactly where one of the calls was a Cancel, and OrderCancelled was recorded once in
  -- that case and never otherwise.
  pub order_life :
      (after_commands.order.status ≡ (if cancels cs then cancelled else confirmed))
      × (count_cancelled (all_events after_commands) ≡ (if cancels cs then 1 else 0))
  unfolding placed
  order_life =
      let h : History = record { order = placed clk id customer lines total; pulled = [] } in
      ground (arith, status_act_all cs h, once_act_all cs h refl)

  -- No history of Cancel, MarkPersisted and PullEvents changes the identifiers, the lines, the
  -- total or the reservation reference of an order that NewOrder placed.
  pub order_keeps :
      fixed_part after_commands.order ≡ fixed_part (placed clk id customer lines total)
  order_keeps =
      fixed_act_all cs (record { order = placed clk id customer lines total; pulled = [] })
