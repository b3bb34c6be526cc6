-- ===== src/Ordering/Money.antt =====
-- Money: domain/money.go. The zero value is the identity of Add.
use go_ddd_template.Base.{
  String, Bool, GoInt, add_int, mul_int, is_negative, is_empty, trim_space, ◌==◌, ◌&&◌, str_eq, not,
  Result, ok, err, if◌then◌else◌,
}
use go_ddd_template.Ordering.Errors.{
  Error, sentinel, wrapped, violated, v_money_amount, v_money_currency, invalid_money,
}

pub record Money : Type 0 where
  pub amount : GoInt
  pub currency : String

abbrev pub zero_money : Money
zero_money = record { amount = 0; currency = "" }

unfoldable pub new_money : GoInt → String → Result Error Money
new_money amount currency =
    let cur = trim_space currency in
    if is_negative amount
    then err (violated v_money_amount)
    else if is_empty cur
    then err (violated v_money_currency)
    else ok (record { amount = amount; currency = cur })

unfoldable pub is_zero : Money → Bool
is_zero m = m.amount == 0 && is_empty m.currency

unfoldable pub mul : Money → GoInt → Money
mul m n = record { amount = mul_int m.amount n; currency = m.currency }

unfoldable pub add : Money → Money → Result Error Money
unfolding is_zero
add m other =
    if is_zero m
    then ok other
    else if is_zero other
    then ok m
    else if not (str_eq m.currency other.currency)
    then err (wrapped (sentinel invalid_money))
    else ok (record { amount = add_int m.amount other.amount; currency = m.currency })
