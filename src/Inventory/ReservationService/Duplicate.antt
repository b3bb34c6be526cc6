-- ===== src/Inventory/ReservationService/Duplicate.antt =====
-- Two lines of one SKU: the second one is dropped.
use go_ddd_template.Base.{
  ℕ, suc, String, false, Option, none, List, [], ◌∷◌, ◌++◌, Duration, Clock, after, ◌≡◌, arith,
  set-get_elem?, Option-cases, ◌⊎◌, inl, inr, All, ◌∙◌, ap, sym, subst,
}
use go_ddd_template.Base.Dict.{Dict}
use go_ddd_template.Inventory.Errors.{Error}
use go_ddd_template.Inventory.Values.{ReservationRef, is_zero, ref_is_zero}
use go_ddd_template.Inventory.StockItem.{StockItem}
use go_ddd_template.Inventory.StockItem.Commands.{reserve_again}
use go_ddd_template.Inventory.ReservationService.{
  ReservationLine, check_line, check_lines, reserve_line, reserve_lines, index_items, allocate,
}
use go_ddd_template.Inventory.ReservationService.Atomic.{
  Passes, check_lines-cons, check_line_passes, reserve_lines-Passes, reserve_lines_next,
  reserve_lines_stop,
}
use go_ddd_template.Inventory.ReservationService.Outcome.{
  LineHolds, SkuHolds, allocate_phases, allocate-Passes, index_items-Sound, reserve_lines-All,
}

-- A line of the list is of the SKU.
abbrev pub HasSku : String → List ReservationLine → Type 0
HasSku k [] = ⊥
HasSku k (l ∷ lines) = (l.sku.value ≡ k) ⊎ HasSku k lines

module _ (ref : ReservationRef) (by_sku : Dict ℕ) (items : List StockItem)
    (extra : ReservationLine) where
  -- The check of a line passes at every place or at none.
  check_line_place :
      (i j : ℕ)
      → check_line ref by_sku items i extra ≡ none
      → check_line ref by_sku items j extra ≡ none
  unfolding check_line
  check_line_place i j h = ground arith

  check_lines-append :
      (i : ℕ) (lines : List ReservationLine)
      → Passes ref by_sku items i lines
      → check_line ref by_sku items 0 extra ≡ none
      → Passes ref by_sku items i (lines ++ extra ∷ [])
  unfolding check_lines
  check_lines-append i [] h e = ground (arith, check_line_place 0 i e)
  check_lines-append i (l ∷ lines) h e =
      ground (
        arith,
        check_lines-append (suc i) lines (check_lines-cons ref by_sku items i l lines h).1 e,
      )

LineHolds-of_sku :
    (ref : ReservationRef) (by_sku : Dict ℕ) (items : List StockItem) (extra : ReservationLine)
    (lines : List ReservationLine)
    → HasSku extra.sku.value lines
    → All (LineHolds ref by_sku items) lines
    → LineHolds ref by_sku items extra
LineHolds-of_sku ref by_sku items extra [] has a = absurd has
LineHolds-of_sku ref by_sku items extra (l ∷ lines) (inl e) a =
    subst (SkuHolds ref by_sku items) e a.0
LineHolds-of_sku ref by_sku items extra (l ∷ lines) (inr has) a =
    LineHolds-of_sku ref by_sku items extra lines has a.1

-- A line whose item has the reference changes nothing.
reserve_line_held :
    (clk : Clock) (ref : ReservationRef) (ttl : Duration) (by_sku : Dict ℕ) (items : List StockItem)
    (l : ReservationLine)
    → ref_is_zero ref ≡ false
    → is_zero l.quantity ≡ false
    → LineHolds ref by_sku items l
    → reserve_line clk ref ttl by_sku items l ≡ (items, none)
unfolding reserve_line is_zero
reserve_line_held clk ref ttl by_sku items l r z (n, p, (it, e, named, has)) = ground (
  arith,
  reserve_again clk ref l.quantity ttl it r (ground arith) has,
  set-get_elem? items n it e,
)

reserve_lines-append :
    (clk : Clock) (ref : ReservationRef) (ttl : Duration) (by_sku : Dict ℕ) (items : List StockItem)
    (lines : List ReservationLine) (extra : ReservationLine) (done : List StockItem)
    → reserve_lines clk ref ttl by_sku items lines ≡ (done, none)
    → ((clk' : Clock) → reserve_line clk' ref ttl by_sku done extra ≡ (done, none))
    → reserve_lines clk ref ttl by_sku items (lines ++ extra ∷ []) ≡ (done, none)
reserve_lines-append clk ref ttl by_sku items [] extra done h again =
    unfold reserve_lines in ground (arith, again clk)
reserve_lines-append clk ref ttl by_sku items (l ∷ lines) extra done h again =
    elim (Option-cases (reserve_line clk ref ttl by_sku items l).1) [
      | inl e ↦
          reserve_lines_next clk ref ttl by_sku items l (lines ++ extra ∷ []) e
          ∙ reserve_lines-append (after 3 clk) ref ttl by_sku _ lines extra done
              (sym (reserve_lines_next clk ref ttl by_sku items l lines e) ∙ h) again
      | inr (e', e) ↦ cc (reserve_lines_stop clk ref ttl by_sku items l lines e' e)
    ]

-- If Allocate succeeds on some lines, and an extra line of a SKU that is among them could be
-- allocated by itself, then Allocate on the lines with the extra one behind them succeeds and does
-- the very same as without it: the quantity of the extra line is not reserved.
pub allocate_drops_duplicate :
    (clk : Clock) (items : List StockItem) (ref : ReservationRef) (lines : List ReservationLine)
    (extra : ReservationLine) (ttl : Duration)
    → (allocate clk items ref lines ttl).1 ≡ none
    → HasSku extra.sku.value lines
    → (allocate clk items ref (extra ∷ []) ttl).1 ≡ none
    → allocate clk items ref (lines ++ extra ∷ []) ttl ≡ allocate clk items ref lines ttl
allocate_drops_duplicate clk items ref lines extra ttl h has alone =
    let by_sku : Dict ℕ = index_items 0 items [] in
    let (r, passes, e) = allocate_phases clk items ref lines ttl h in
    let (_, passes', _) = allocate_phases clk items ref (extra ∷ []) ttl alone in
    let first = (check_lines-cons ref by_sku items 0 extra [] passes').0 in
    let (_, _, positive, _) = check_line_passes ref by_sku items 0 extra first in
    let out : List StockItem × Option Error = reserve_lines clk ref ttl by_sku items lines in
    let ends : out ≡ (out.0, none) =
      ap (λ failure. (out.0, failure))
        (reserve_lines-Passes clk ref ttl by_sku items 0 lines r passes) in
    let held =
      LineHolds-of_sku ref by_sku out.0 extra lines has
        (reserve_lines-All ref ttl by_sku clk items 0 lines r passes (index_items-Sound items)) in
    allocate-Passes clk items ref (lines ++ extra ∷ []) ttl r
      (check_lines-append ref by_sku items extra 0 lines passes first)
    ∙ reserve_lines-append clk ref ttl by_sku items lines extra out.0 ends
        (λ clk'. reserve_line_held clk' ref ttl by_sku out.0 extra r positive held)
    ∙ sym (e ∙ ends)
