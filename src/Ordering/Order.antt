-- ===== src/Ordering/Order.antt =====
-- The aggregate Order: domain/order.go, with its lines of domain/order_line.go. A method returns the
-- aggregate that it leaves and its error, `none` for nil.
pub mod Total
pub mod Life
use go_ddd_template.Base.{
  ℕ, String, Bool, true, false, not, Option, none, some, List, [], ◌∷◌, ◌++◌, GoInt, Clock, Result,
  ok, err, ◌>>=◌, if◌then◌else◌,
}
use go_ddd_template.Ordering.Errors.{Error, sentinel, violated, v_empty_order, order_not_confirmed}
use go_ddd_template.Ordering.Values.{
  Sku, Quantity, OrderId, CustomerId, ReservationRef, derive_reservation_ref,
}
use go_ddd_template.Ordering.Money.{Money, zero_money, mul, add}
use go_ddd_template.Ordering.Event.{DomainEvent, order_placed, order_cancelled}

pub record OrderLine : Type 0 where
  pub sku : Sku
  pub quantity : Quantity
  pub unit_price : Money

unfoldable pub new_order_line : Sku → Quantity → Money → OrderLine
new_order_line sku quantity unit_price = record {
  sku = sku;
  quantity = quantity;
  unit_price = unit_price;
}

unfoldable pub subtotal : OrderLine → Money
unfolding mul
subtotal l = mul l.unit_price l.quantity.value

-- An int; `other` stands for the values that the program never makes.
pub data OrderStatus : Type 0 where
  confirmed cancelled : OrderStatus
  other : ℕ → OrderStatus

unfoldable pub status_string : OrderStatus → String
status_string confirmed = "confirmed"
status_string cancelled = "cancelled"
status_string (other n) = "unknown"

abbrev pub is_confirmed : OrderStatus → Bool
is_confirmed confirmed = true
is_confirmed cancelled = false
is_confirmed (other n) = false

pub record Order : Type 0 where
  pub id : OrderId
  pub customer : CustomerId
  pub lines : List OrderLine
  pub status : OrderStatus
  pub total : Money
  pub reservation_ref : ReservationRef
  pub version : GoInt
  pub events : List DomainEvent

abbrev pub record_event : DomainEvent → Order → Order
record_event e o = record o { events = o.events ++ e ∷ [] }

-- The loop of NewOrder over the lines.
unfoldable pub sum_lines : Money → List OrderLine → Result Error Money
unfolding add subtotal
sum_lines total [] = ok total
sum_lines total (l ∷ lines) = add total (subtotal l) >>= λ next. sum_lines next lines

-- The order with its first event.
unfoldable pub placed : Clock → OrderId → CustomerId → List OrderLine → Money → Order
unfolding derive_reservation_ref
placed clk id customer lines total =
    let ref = derive_reservation_ref id in
    let o : Order = record {
      id = id;
      customer = customer;
      lines = lines;
      status = confirmed;
      total = total;
      reservation_ref = ref;
      version = 0;
      events = [];
    } in
    record_event
      (order_placed id.value customer.value ref.value total.amount total.currency (clk 0)) o

unfoldable pub new_order : Clock → OrderId → CustomerId → List OrderLine → Result Error Order
unfolding sum_lines placed
new_order clk id customer [] = err (violated v_empty_order)
new_order clk id customer (l ∷ lines) =
    sum_lines zero_money (l ∷ lines) >>= λ total. ok (placed clk id customer (l ∷ lines) total)

unfoldable pub reconstitute_order :
    OrderId → CustomerId → List OrderLine → OrderStatus → Money → ReservationRef → GoInt → Order
reconstitute_order id customer lines status total ref version = record {
  id = id;
  customer = customer;
  lines = lines;
  status = status;
  total = total;
  reservation_ref = ref;
  version = version;
  events = [];
}

unfoldable pub cancel : Clock → Order → Order × Option Error
cancel clk o =
    if not (is_confirmed o.status)
    then (o, some (sentinel order_not_confirmed))
    else let o' = record o { status = cancelled } in
      (record_event (order_cancelled o.id.value o.reservation_ref.value (clk 0)) o', none)

unfoldable pub mark_persisted : GoInt → Order → Order
mark_persisted version o = record o { version = version }

unfoldable pub pull_events : Order → Order × List DomainEvent
pull_events o = (record o { events = [] }, o.events)
