-- ===== src/Inventory/ReservationService/Places.antt =====
-- What the second phase of Allocate keeps: the places that the index by SKU names, and any property of
-- every item that Reserve keeps.
use go_ddd_template.Base.{
  ℕ, zero, suc, some, List, [], ◌∷◌, get_elem?, set, All, ◌≡◌, refl, ◌∙◌, arith, false, All-set,
  All-get_elem?, Duration, Clock, after,
}
use go_ddd_template.Base.Dict.{Dict}
use go_ddd_template.Inventory.Values.{Quantity, ReservationRef, ref_is_zero}
use go_ddd_template.Inventory.StockItem.{StockItem, reserve}
use go_ddd_template.Inventory.ReservationService.{ReservationLine, index_items, reserve_lines}
use go_ddd_template.Inventory.ReservationService.Atomic.{
  Passes, check_lines-cons, check_lines-set, reserve_line_passes, reserve_lines-cons,
}
use go_ddd_template.Inventory.ReservationService.Outcome.{reserve-sku}

module _ {ℓ} (ref : ReservationRef) (ttl : Duration) (by_sku : Dict ℕ) (R : List StockItem → Type ℓ)
    (step : (items : List StockItem) (j : ℕ) (it : StockItem) (clk : Clock) (qty : Quantity)
      → get_elem? items j ≡ some it
      → R items
      → R (set items j (reserve clk ref qty ttl it).0)) where
  -- What a Reserve of one item keeps, the second phase keeps.
  pub reserve_lines_keeps :
      (clk : Clock) (items : List StockItem) (i : ℕ) (lines : List ReservationLine)
      → ref_is_zero ref ≡ false
      → Passes ref by_sku items i lines
      → R items
      → R (reserve_lines clk ref ttl by_sku items lines).0
  reserve_lines_keeps clk items i [] z h r = unfold reserve_lines in r
  reserve_lines_keeps clk items i (l ∷ lines) z h r =
      let (first, rest) = check_lines-cons ref by_sku items i l lines h in
      let (j, it, p, e, done, has) = reserve_line_passes clk ref ttl by_sku items i l z first in
      rw (reserve_lines-cons clk ref ttl by_sku items _ l lines done) (
        reserve_lines_keeps (after 3 clk) _ (suc i) lines z
          (check_lines-set ref by_sku items (suc i) j lines it _ e has rest)
          (step items j it clk l.quantity e r))

index_items-set :
    (i : ℕ) (items : List StockItem) (j : ℕ) (it it' : StockItem) (by_sku : Dict ℕ)
    → get_elem? items j ≡ some it
    → it'.sku ≡ it.sku
    → index_items i (set items j it') by_sku ≡ index_items i items by_sku
unfolding index_items
index_items-set i [] j it it' by_sku h e = refl
index_items-set i (x ∷ items) zero it it' by_sku h e = ground (arith, h, e)
index_items-set i (x ∷ items) (suc j) it it' by_sku h e =
    index_items-set (suc i) items j it it' _ h e

module _ (ref : ReservationRef) (ttl : Duration) (by_sku : Dict ℕ) (clk : Clock)
    (items : List StockItem) (i : ℕ) (lines : List ReservationLine) (z : ref_is_zero ref ≡ false)
    (h : Passes ref by_sku items i lines) where
  pub index_items-reserve_lines :
      index_items 0 (reserve_lines clk ref ttl by_sku items lines).0 [] ≡ index_items 0 items []
  index_items-reserve_lines =
      reserve_lines_keeps ref ttl by_sku (λ its. index_items 0 its [] ≡ index_items 0 items [])
        (λ its j it c qty e same.
          index_items-set 0 its j it _ [] e (reserve-sku c ref qty ttl it) ∙ same)
        clk items i lines z h refl

  pub reserve_lines-All {ℓ} :
      (P : StockItem → Type ℓ)
      → ((it : StockItem) (c : Clock) (qty : Quantity) → P it → P (reserve c ref qty ttl it).0)
      → All P items
      → All P (reserve_lines clk ref ttl by_sku items lines).0
  reserve_lines-All P kept a =
      reserve_lines_keeps ref ttl by_sku (λ its. All P its)
        (λ its j it c qty e ps.
          All-set P its j _ (kept it c qty (All-get_elem? P its j it ps e)) ps)
        clk items i lines z h a
