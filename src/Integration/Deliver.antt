-- ===== src/Integration/Deliver.antt =====
-- The messages of the ordering context at the inventory's router: messages.go of the ordering context's
-- application over subscriber.go and inventory.go.
use go_ddd_template.Base.{
  ℕ, Result, ok, err, Option, none, if◌then◌else◌, refl, String, false, some, subst, ◌≡◌, is_empty,
  arith, Time,
}
use mathlib.Core.Option.{some-injective}
use go_ddd_template.Base.Dict.{lookup, insert}
use go_ddd_template.Shared.Outbox.{Message, register, deliver}
use go_ddd_template.Inventory.Application.{Attempt, Done}
use go_ddd_template.Inventory.Errors.{Error, is_sentinel, reservation_not_found}
use go_ddd_template.Inventory.Application.UseCases.{confirm_use_case}
use go_ddd_template.Inventory.Application.Subscriber.{
  benign, decode_reservation_ref, on_confirm_reservation, on_order_cancelled,
}
use go_ddd_template.Inventory.Assembly.{Module, deliver_message, release}
use go_ddd_template.Ordering.Event.{order_cancelled}
use go_ddd_template.Ordering.Values.{ReservationRef}
use go_ddd_template.Ordering.Application.{
  payload_fields, confirm_reservation_message, to_outbox_message,
}

-- What a Confirm tells the relay: nothing where it succeeds, or where the reservation is missing.
abbrev pub told : Result Error Done → Option Error
told (ok d) = none
told (err e) = if is_sentinel e reservation_not_found then none else some e

benign-told : (out : Result Error Done) → benign out ≡ told out
unfolding is_sentinel
benign-told (ok d) = refl
benign-told (err e) = ground arith

confirm_message_arrives :
    {T S : Type 0} (m : Module T S) (attempts : ℕ → Attempt) (ref : ReservationRef)
    (trace_id id : String) (now : Time) (s : S)
    → is_empty ref.value ≡ false
    → let out = confirm_use_case m.deps attempts ref.value s in
      deliver_message m attempts (confirm_reservation_message ref trace_id id now) s
      ≡ (out.0, told out.1)
unfolding deliver_message deliver register on_confirm_reservation decode_reservation_ref
    confirm_reservation_message payload_fields lookup insert
confirm_message_arrives m attempts ref trace_id id now s h =
    ground (arith, h, benign-told (confirm_use_case m.deps attempts ref.value s).1)

cancel_message_arrives :
    {T S : Type 0} (m : Module T S) (attempts : ℕ → Attempt) (order_id ref trace_id id : String)
    (now : Time) (msg : Message) (s : S)
    → is_empty ref ≡ false
    → to_outbox_message (order_cancelled order_id ref now) trace_id id ≡ some msg
    → deliver_message m attempts msg s ≡ release m attempts ref s
unfolding deliver_message deliver register on_order_cancelled decode_reservation_ref
    to_outbox_message payload_fields lookup insert release
cancel_message_arrives m attempts order_id ref trace_id id now msg s h e =
    subst (λ x. deliver_message m attempts x s ≡ release m attempts ref s) (some-injective _ msg e)
      (ground (arith, h))

-- At the router of the inventory's module, for a reference that is not empty: the message of
-- PlaceOrder runs the Confirm use case on that reference and gives its error, but none where the
-- error is ErrReservationNotFound, and the message of an order's cancellation does what Release of
-- the module does, with its error.
pub messages_arrive :
    {T S : Type 0} (m : Module T S) (attempts : ℕ → Attempt) (ref : ReservationRef)
    (order_id trace_id id : String) (now : Time) (msg : Message) (s : S)
    → is_empty ref.value ≡ false
    → to_outbox_message (order_cancelled order_id ref.value now) trace_id id ≡ some msg
    → (deliver_message m attempts (confirm_reservation_message ref trace_id id now) s ≡ (
      (confirm_use_case m.deps attempts ref.value s).0,
      told (confirm_use_case m.deps attempts ref.value s).1,
    ))
      × (deliver_message m attempts msg s ≡ release m attempts ref.value s)
messages_arrive m attempts ref order_id trace_id id now msg s h e = (
  confirm_message_arrives m attempts ref trace_id id now s h,
  cancel_message_arrives m attempts order_id ref.value trace_id id now msg s h e,
)
