-- ===== src/Inventory/ReservationService/Stock.antt =====
-- Allocate keeps every item valid and moves stock only between free and reserved.
use go_ddd_template.Base.{
  ℕ, Option, List, [], ◌∷◌, get_elem?, map, Duration, Clock, after, ◌≡◌, map-set, Option-cases, inl,
  inr, All, All-set, All-get_elem?, refl, ◌∙◌, sym, subst,
}
use go_ddd_template.Base.Dict.{Dict, lookup}
use go_ddd_template.Inventory.Errors.{Error}
use go_ddd_template.Inventory.Values.{ReservationRef, IsQuantity}
use go_ddd_template.Inventory.StockItem.{StockItem}
use go_ddd_template.Inventory.StockItem.Invariant.{IsValid, stock, stock-reserve, reserve-IsValid}
use go_ddd_template.Inventory.ReservationService.{
  ReservationLine, reserve_line, reserve_lines, index_items, allocate,
}
use go_ddd_template.Inventory.ReservationService.Atomic.{
  allocate_fails, reserve_lines_next, reserve_lines_stop,
}
use go_ddd_template.Inventory.ReservationService.Outcome.{allocate_phases}

reserve_line-stock :
    (clk : Clock) (ref : ReservationRef) (ttl : Duration) (by_sku : Dict ℕ) (items : List StockItem)
    (l : ReservationLine)
    → All IsValid items
    → IsQuantity l.quantity
    → All IsValid (reserve_line clk ref ttl by_sku items l).0
      × (map stock (reserve_line clk ref ttl by_sku items l).0 ≡ map stock items)
unfolding reserve_line
reserve_line-stock clk ref ttl by_sku items l v q =
    elim (Option-cases (lookup l.sku.value by_sku)) [
      | inl e ↦ rw (e, reserve_line) (v, refl)
      | inr (j, e) ↦ elim (Option-cases (get_elem? items j)) [
        | inl e' ↦ rw (e, e', reserve_line) (v, refl)
        | inr (it, e') ↦
            let w = All-get_elem? IsValid items j it v e' in
            rw (e, e', reserve_line)
              (
                All-set IsValid items j _ (reserve-IsValid clk it w ref l.quantity ttl q) v,
                map-set stock items j it _ e' (stock-reserve clk it w ref l.quantity ttl q),
              )
      ]
    ]

-- Valid items, with the stock that `items` have.
abbrev KeepsStock : List StockItem → List StockItem × Option Error → Type 0
KeepsStock items out = All IsValid out.0 × (map stock out.0 ≡ map stock items)

reserve_lines-stock :
    (clk : Clock) (ref : ReservationRef) (ttl : Duration) (by_sku : Dict ℕ) (items : List StockItem)
    (lines : List ReservationLine)
    → All IsValid items
    → All (λ (l : ReservationLine). IsQuantity l.quantity) lines
    → KeepsStock items (reserve_lines clk ref ttl by_sku items lines)
reserve_lines-stock clk ref ttl by_sku items [] v q = unfold reserve_lines in (v, refl)
reserve_lines-stock clk ref ttl by_sku items (l ∷ lines) v q =
    let (v', same) = reserve_line-stock clk ref ttl by_sku items l v q.0 in
    let rest = reserve_lines-stock (after 3 clk) ref ttl by_sku _ lines v' q.1 in
    elim (Option-cases (reserve_line clk ref ttl by_sku items l).1) [
      | inl e ↦
          subst (KeepsStock items) (sym (reserve_lines_next clk ref ttl by_sku items l lines e))
            (rest.0, rest.1 ∙ same)
      | inr (e', e) ↦
          subst (KeepsStock items) (sym (reserve_lines_stop clk ref ttl by_sku items l lines e' e))
            (v', same)
    ]

-- On valid items, with quantities that NewQuantity makes, Allocate, whether it fails or not, keeps
-- every item valid, and its free and reserved stock together the same.
pub allocate_stock :
    (clk : Clock) (items : List StockItem) (ref : ReservationRef) (lines : List ReservationLine)
    (ttl : Duration)
    → All IsValid items
    → All (λ (l : ReservationLine). IsQuantity l.quantity) lines
    → All IsValid (allocate clk items ref lines ttl).0
      × (map stock (allocate clk items ref lines ttl).0 ≡ map stock items)
allocate_stock clk items ref lines ttl v q =
    elim (Option-cases (allocate clk items ref lines ttl).1) [
      | inl ok ↦
          rw (allocate_phases clk items ref lines ttl ok).2
            (reserve_lines-stock clk ref ttl (index_items 0 items []) items lines v q)
      | inr (e, failed) ↦ rw (allocate_fails clk items ref lines ttl e failed) (v, refl)
    ]
