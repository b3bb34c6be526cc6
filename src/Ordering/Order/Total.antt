-- ===== src/Ordering/Order/Total.antt =====
-- The total of a new order: the loop of NewOrder over Money.Mul and Money.Add.
use go_ddd_template.Base.{
  ℕ, ◌+◌, ◌*◌, ◌%◌, ◌<◌, ◌≤◌, ◌≡◌, String, Bool, true, false, ◌&&◌, str_eq, is_empty, arith,
  int_mod, sign_bit, is_negative, List, [], ◌∷◌, Clock, GoInt, Result, Result-cases, ok, err,
  if◌then◌else◌, Bool-cases, inl, inr,
}
use go_ddd_template.Ordering.Errors.{
  Error, sentinel, wrapped, violated, v_money_amount, invalid_money,
}
use go_ddd_template.Ordering.Values.{OrderId, CustomerId}
use go_ddd_template.Ordering.Money.{Money, new_money, is_zero, add, mul}
use go_ddd_template.Ordering.Store.{order_to_order_row, order_row_to_order}
use go_ddd_template.Ordering.Event.{order_placed}
use go_ddd_template.Ordering.Order.{
  confirmed, OrderLine, subtotal, Order, sum_lines, placed, new_order,
}

-- The sum of price times quantity, without a bound.
abbrev pub price_sum : List OrderLine → ℕ
price_sum [] = 0
price_sum (l ∷ lines) = l.unit_price.amount * l.quantity.value + price_sum lines

abbrev pub all_in : String → List OrderLine → Bool
all_in currency [] = true
all_in currency (l ∷ lines) = str_eq currency l.unit_price.currency && all_in currency lines

-- Every price has a currency, as NewMoney sees to.
abbrev pub Priced : List OrderLine → Type 0
Priced [] = Unit
Priced (l ∷ lines) = (is_empty l.unit_price.currency ≡ false) × Priced lines

abbrev pub total_of : String → List OrderLine → Money
total_of currency lines = record { amount = price_sum lines % int_mod; currency = currency }

-- The sum in one currency, or the error of a second one.
abbrev pub total_answer : ℕ → String → List OrderLine → Result Error Money
total_answer start currency lines =
    if all_in currency lines
    then ok (record { amount = (start + price_sum lines) % int_mod; currency = currency })
    else err (wrapped (sentinel invalid_money))

abbrev with_amount : ℕ → String → Money
with_amount n currency = record { amount = n % int_mod; currency = currency }

-- The confirmed order with a total, not stored yet, with the event that it was placed.
abbrev pub confirmed_order : Clock → OrderId → CustomerId → List OrderLine → Money → Order
confirmed_order clk id customer lines total = record {
  id = id;
  customer = customer;
  lines = lines;
  status = confirmed;
  total = total;
  reservation_ref = record { value = id.value };
  version = 0;
  events = order_placed id.value customer.value id.value total.amount total.currency (clk 0) ∷ [];
}

add-subtotal :
    (n : ℕ) (currency : String) (l : OrderLine)
    → is_empty currency ≡ false
    → is_empty l.unit_price.currency ≡ false
    → add (with_amount n currency) (subtotal l) ≡ (
        if str_eq currency l.unit_price.currency
        then ok (with_amount (n + l.unit_price.amount * l.quantity.value) currency)
        else err (wrapped (sentinel invalid_money)))
unfolding add subtotal is_zero mul
add-subtotal n currency l c p =
    let e : (n % int_mod + l.unit_price.amount * l.quantity.value % int_mod) % int_mod
        ≡ (n + l.unit_price.amount * l.quantity.value) % int_mod =
      omega arith in
    ground (arith, e)

sum_lines_from :
    (n : ℕ) (currency : String) (lines : List OrderLine)
    → is_empty currency ≡ false
    → Priced lines
    → sum_lines (with_amount n currency) lines ≡ total_answer n currency lines
unfolding sum_lines
sum_lines_from n currency [] c p = ground arith
sum_lines_from n currency (l ∷ lines) c p =
    elim (Bool-cases (str_eq currency l.unit_price.currency)) [
      | inl y ↦
          let e : n + l.unit_price.amount * l.quantity.value + price_sum lines
              ≡ n + price_sum (l ∷ lines) =
            omega arith in
          ground (
            arith,
            e,
            add-subtotal n currency l c p.0,
            sum_lines_from (n + l.unit_price.amount * l.quantity.value) currency lines c p.1,
          )
      | inr w ↦ ground (arith, add-subtotal n currency l c p.0)
    ]

-- The total of an order whose prices are in one currency is the sum of price times quantity, modulo
-- 2 ^ 64, in that currency: NewOrder gives the order confirmed with it, with version 0, its
-- identifier as its reference, and the one event that it was placed. Prices in two currencies are
-- the error ErrInvalidMoney. Every price has a currency, as NewMoney sees to.
pub new_order_total :
    (clk : Clock) (id : OrderId) (customer : CustomerId) (l : OrderLine) (lines : List OrderLine)
    → Priced (l ∷ lines)
    → new_order clk id customer (l ∷ lines) ≡ (
        if all_in l.unit_price.currency lines
        then ok (
            confirmed_order clk id customer
              (l ∷ lines)
              (total_of l.unit_price.currency (l ∷ lines)))
        else err (wrapped (sentinel invalid_money)))
unfolding new_order placed sum_lines add subtotal mul is_zero
new_order_total clk id customer l lines p = ground (
  arith,
  sum_lines_from (l.unit_price.amount * l.quantity.value) l.unit_price.currency lines p.0 p.1,
)

row_of_refused_total :
    (o : Order) (version : GoInt)
    → new_money o.total.amount o.total.currency ≡ err (violated v_money_amount)
    → (e : Error) × (order_row_to_order (order_to_order_row o version) ≡ err e)
unfolding order_row_to_order order_to_order_row
row_of_refused_total o version h =
    elim (Result-cases (order_row_to_order (order_to_order_row o version))) [
      | inl ((a, y)) ↦ absurd (ground (arith, h, y))
      | inr ((e, y)) ↦ (e, y)
    ]

-- Where all prices are in one currency and the sum of price times quantity is from 2 ^ 63 up to 2 ^
-- 64, NewOrder succeeds with a negative total, which NewMoney refuses: the order's row, with
-- whatever version, is read back as an error. Every price has a currency, as NewMoney sees to.
pub new_order_overflows :
    (clk : Clock) (id : OrderId) (customer : CustomerId) (l : OrderLine) (lines : List OrderLine)
    (version : GoInt)
    → Priced (l ∷ lines)
    → all_in l.unit_price.currency lines ≡ true
    → sign_bit ≤ price_sum (l ∷ lines)
    → price_sum (l ∷ lines) < int_mod
    → (o : Order) × (new_order clk id customer (l ∷ lines) ≡ ok o)
      × (is_negative o.total.amount ≡ true)
      × (new_money o.total.amount o.total.currency ≡ err (violated v_money_amount))
      × (e : Error) × (order_row_to_order (order_to_order_row o version) ≡ err e)
unfolding new_money
new_order_overflows clk id customer l lines version p same big small =
    let total = total_of l.unit_price.currency (l ∷ lines) in
    let refused : new_money total.amount total.currency ≡ err (violated v_money_amount) =
      ground arith in
    let read_back =
      row_of_refused_total (confirmed_order clk id customer (l ∷ lines) total) version refused in
    (
      confirmed_order clk id customer (l ∷ lines) total,
      ground (arith, new_order_total clk id customer l lines p),
      ground arith,
      refused,
      read_back.0,
      read_back.1,
    )
