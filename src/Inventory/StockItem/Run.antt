-- ===== src/Inventory/StockItem/Run.antt =====
-- Histories of a stock item: any methods, in any order, with any clock.
use go_ddd_template.Base.{
  ℕ, ◌+◌, ◌<◌, ◌≡◌, List, [], ◌∷◌, All, arith, sign_bit, Time, Duration, Clock,
}
use go_ddd_template.Inventory.Values.{Quantity, ReservationRef, IsQuantity}
use go_ddd_template.Inventory.StockItem.{
  StockItem, replenish, reserve, confirm, release, reap_expired, reserved,
}
use go_ddd_template.Inventory.StockItem.Totals.{reserved-total}
use go_ddd_template.Inventory.StockItem.Invariant.{
  IsValid, stock, stock-replenish, replenish-IsValid, stock-reserve, reserve-IsValid, stock-confirm,
  confirm-IsValid, stock-release, release-IsValid,
}
use go_ddd_template.Inventory.StockItem.Reap.{stock-reap_expired, reap_expired-IsValid}

pub data Call : Type 0 where
  replenishes : Quantity → Call
  reserves : ReservationRef → Quantity → Duration → Call
  confirms releases : ReservationRef → Call
  reaps : Time → Call

-- The aggregate after a call, whether it fails or not.
pub step : StockItem → Clock × Call → StockItem
step s (clk, replenishes qty) = (replenish clk qty s).0
step s (clk, reserves ref qty ttl) = (reserve clk ref qty ttl s).0
step s (clk, confirms ref) = (confirm clk ref s).0
step s (clk, releases ref) = (release clk ref s).0
step s (clk, reaps now) = (reap_expired now s).0

pub run : StockItem → List (Clock × Call) → StockItem
run s [] = s
run s (c ∷ cs) = run (step s c) cs

-- The quantities of the calls are made by NewQuantity.
abbrev pub IsCall : Clock × Call → Type 0
IsCall (clk, replenishes qty) = IsQuantity qty
IsCall (clk, reserves ref qty ttl) = IsQuantity qty
IsCall (clk, c) = Unit

abbrev pub added : Clock × Call → ℕ
added (clk, replenishes qty) = qty.value
added (clk, reserves ref qty ttl) = 0
added (clk, confirms ref) = 0
added (clk, releases ref) = 0
added (clk, reaps now) = 0

-- All the stock that the calls of a history bring in.
abbrev pub replenished : List (Clock × Call) → ℕ
replenished [] = 0
replenished (c ∷ cs) = added c + replenished cs

module _ (s : StockItem) (v : IsValid s) where
  stock-step :
      (c : Clock × Call)
      → IsCall c
      → stock s + added c < sign_bit
      → stock (step s c) ≡ stock s + added c
  unfolding step
  stock-step (clk, replenishes qty) q h = stock-replenish clk s v qty h
  stock-step (clk, reserves ref qty ttl) q h = omega (arith, stock-reserve clk s v ref qty ttl q)
  stock-step (clk, confirms ref) q h = omega (arith, stock-confirm clk s v ref)
  stock-step (clk, releases ref) q h = omega (arith, stock-release clk s v ref)
  stock-step (clk, reaps now) q h = omega (arith, stock-reap_expired now s v)

  step-IsValid : (c : Clock × Call) → IsCall c → stock s + added c < sign_bit → IsValid (step s c)
  unfolding step
  step-IsValid (clk, replenishes qty) q h = replenish-IsValid clk s v qty h
  step-IsValid (clk, reserves ref qty ttl) q h = reserve-IsValid clk s v ref qty ttl q
  step-IsValid (clk, confirms ref) q h = confirm-IsValid clk s v ref
  step-IsValid (clk, releases ref) q h = release-IsValid clk s v ref
  step-IsValid (clk, reaps now) q h = reap_expired-IsValid now s v

run-Kept :
    (s : StockItem) (cs : List (Clock × Call))
    → IsValid s
    → All IsCall cs
    → stock s + replenished cs < sign_bit
    → IsValid (run s cs) × (stock (run s cs) ≡ stock s + replenished cs)
unfolding run
run-Kept s [] v a h = (v, omega arith)
run-Kept s (c ∷ cs) v a h =
    let same = stock-step s v c a.0 (omega arith) in
    let rest =
      run-Kept (step s c) cs (step-IsValid s v c a.0 (omega arith)) a.1 (omega (arith, same)) in
    (rest.0, omega (arith, same, rest.1))

-- Any history of calls with quantities that NewQuantity makes keeps a stock item valid, as long
-- as the stock on hand and all that the history replenishes stay below 2 ^ 63.
pub run-IsValid :
    (s : StockItem) (cs : List (Clock × Call))
    → IsValid s
    → All IsCall cs
    → stock s + replenished cs < sign_bit
    → IsValid (run s cs)
run-IsValid s cs v a h = (run-Kept s cs v a h).0

-- Let a stock item be valid, the quantities of a history of calls be such as NewQuantity makes, and
-- the stock on hand and all that the history replenishes stay below 2 ^ 63. Then Available() +
-- Reserved() after the history is what it was before, and what the history replenished: no call
-- loses stock or makes it up.
pub on_hand-run :
    (s : StockItem) (cs : List (Clock × Call))
    → IsValid s
    → All IsCall cs
    → stock s + replenished cs < sign_bit
    → (run s cs).available.value + (reserved (run s cs)).value
      ≡ s.available.value + (reserved s).value + replenished cs
on_hand-run s cs v a h =
    let (w, same) = run-Kept s cs v a h in
    omega (arith, v.bounded, w.bounded, same, reserved-total s, reserved-total (run s cs))
