-- ===== src/Integration/Publish.antt =====
-- Sending a message from the ordering context to the inventory: publisher.go of eventhttp over
-- IngestEvent of the inventory's internalhttp.
use go_ddd_template.Base.{
  ℕ, String, none, some, Option, ◌≡◌, refl, Time, zero_time, is_zero_time, Duration, arith,
  is_empty, if◌then◌else◌, subst,
}
use Prim.Native.String.{[] as empty, ◌∷◌ as cons}
use mathlib.Core.Option
use go_ddd_template.Shared.Outbox.{Message, Router, deliver}
use go_ddd_template.Inventory.Errors as Inv
use go_ddd_template.Inventory.Application.{Attempt, Deps}
use go_ddd_template.Inventory.InternalHttp as Server
use go_ddd_template.Ordering.Errors.{Error}
use go_ddd_template.Ordering.InventoryClient as Client
use go_ddd_template.Integration.{client, received, sent_message}

trace_kept :
    (trace_id : String)
    → Server.value_or "" (if is_empty trace_id then none else some trace_id) ≡ trace_id
trace_kept empty = refl
trace_kept (cons c s) = refl

-- The message that arrives: the one that was sent, with the time that the wire gives for its own, or
-- with none where it has none.
abbrev pub arriving : (Time → Time) → Message → Message
arriving wire m = record m {
  occurred_at = if is_zero_time m.occurred_at then zero_time else wire m.occurred_at;
}

time_kept :
    (wire : Time → Time) (t : Time)
    → Server.value_or zero_time (Option.map wire (if is_zero_time t then none else some t))
      ≡ (if is_zero_time t then zero_time else wire t)
time_kept wire t = ground arith

-- The message that arrives at the inventory is the one that was sent, whichever of its fields are
-- empty, but for its time: that is what the wire gives for it, or the zero time for the zero time.
pub to_message-to_inbound :
    (wire : Time → Time) (m : Message)
    → Server.to_message (sent_message wire (Client.to_inbound m)) ≡ arriving wire m
unfolding Server.to_message Client.to_inbound
to_message-to_inbound wire m = ground (arith, trace_kept m.trace_id, time_kept wire m.occurred_at)

-- Whether there is an error, and not which.
abbrev pub SameSuccess : Option Inv.Error → Option Error → Type 0
SameSuccess none none = Unit
SameSuccess none (some f) = ⊥
SameSuccess (some e) none = ⊥
SameSuccess (some e) (some f) = Unit

module _ {T S : Type 0} (wire : Time → Time) (deps : Deps T S) (attempts : ℕ → Attempt)
    (ttl : Duration) (router : Router Inv.Error S) where
  -- What the theorem says, of the message that the server has decoded.
  abbrev Delivered : Message → S → Message → Type 0
  Delivered m s arrived =
      let delivered = deliver (Inv.wrapped Inv.no_route) router arrived s in
      let published = Client.publish (client wire deps attempts ttl router) m s in
      (published.0 ≡ delivered.0) × SameSuccess delivered.1 published.1

  -- An outcome of the router, as the handler, the client and the publisher hand it on.
  handed_on :
      (d : S × Option Inv.Error)
      → let out = Server.ingested d in
        (out.0 ≡ d.0) × SameSuccess d.1 (Client.wrap_failure (received out.1))
  handed_on (s, none) = (refl, tt)
  handed_on (s, some e) = (refl, tt)

  Delivered-arrived :
      (m : Message) (s : S)
      → Delivered m s (Server.to_message (sent_message wire (Client.to_inbound m)))
  unfolding Client.publish Server.ingest_event
  Delivered-arrived m s =
      let arrived = Server.to_message (sent_message wire (Client.to_inbound m)) in
      handed_on (deliver (Inv.wrapped Inv.no_route) router arrived s)

  -- Over a call that the inventory's handler answers, a Publish of the ordering context leaves the
  -- inventory in the state in which its router leaves it for the message, and it fails exactly
  -- where the router does. The router gets the message with every field as it was sent, except that
  -- a time that is not zero is what the wire gives for it.
  pub publish-deliver :
      (m : Message) (s : S)
      → let delivered = deliver (Inv.wrapped Inv.no_route) router (arriving wire m) s in
        let published = Client.publish (client wire deps attempts ttl router) m s in
        (published.0 ≡ delivered.0) × SameSuccess delivered.1 published.1
  publish-deliver m s = subst (Delivered m s) (to_message-to_inbound wire m) (Delivered-arrived m s)
