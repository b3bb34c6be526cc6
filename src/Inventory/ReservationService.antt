-- ===== src/Inventory/ReservationService.antt =====
-- The domain service ReservationService: domain/reservation_service.go. The slice of pointers is a
-- list, and the map from a SKU to a pointer is a map to a place in that list.
pub mod Atomic
pub mod Outcome
pub mod Stock
pub mod Duplicate
pub mod Places
use go_ddd_template.Base.{
  ℕ, suc, ◌+◌, String, Bool, true, false, Option, none, some, List, [], ◌∷◌, get_elem?, set,
  Duration, Clock, after, if◌then◌else◌,
}
use go_ddd_template.Base.Dict.{Dict, lookup, insert}
use go_ddd_template.Inventory.Errors.{
  Error, sentinel, wrapped, nil_pointer, violated, violated_at, v_quantity, v_reservation_ref,
  stock_item_not_found, insufficient_stock,
}
use go_ddd_template.Inventory.Values.{
  Quantity, Sku, ReservationRef, is_zero, greater_than, ref_is_zero,
}
use go_ddd_template.Inventory.StockItem.{StockItem, reserve, has_reservation}

pub record ReservationLine : Type 0 where
  pub sku : Sku
  pub quantity : Quantity

-- bySKU[it.SKU().String()] = it for each item; a later item takes the place of an earlier one.
unfoldable pub index_items : ℕ → List StockItem → Dict ℕ → Dict ℕ
index_items i [] by_sku = by_sku
index_items i (it ∷ items) by_sku = index_items (suc i) items (insert it.sku.value i by_sku)

-- The item behind a pointer of the map.
abbrev pub deref : Option ℕ → List StockItem → Option StockItem
deref none items = none
deref (some j) items = get_elem? items j

-- One round of the first phase, for line `i`.
unfoldable pub check_line :
    ReservationRef → Dict ℕ → List StockItem → ℕ → ReservationLine → Option Error
check_line ref by_sku items i l = elim (deref (lookup l.sku.value by_sku) items) [
  | none ↦ some (wrapped (sentinel stock_item_not_found))
  | some it ↦
      if is_zero l.quantity
      then some (violated_at v_quantity i)
      else if has_reservation ref it
      then none
      else if greater_than l.quantity it.available
      then some (wrapped (sentinel insufficient_stock))
      else none
]

unfoldable pub check_lines :
    ReservationRef → Dict ℕ → List StockItem → ℕ → List ReservationLine → Option Error
check_lines ref by_sku items i [] = none
check_lines ref by_sku items i (l ∷ lines) = elim (check_line ref by_sku items i l) [
  | some e ↦ some e
  | none ↦ check_lines ref by_sku items (suc i) lines
]

-- One round of the second phase.
unfoldable pub reserve_line :
    Clock
    → ReservationRef
    → Duration
    → Dict ℕ
    → List StockItem
    → ReservationLine
    → List StockItem × Option Error
reserve_line clk ref ttl by_sku items l = elim (lookup l.sku.value by_sku) [
  | none ↦ (items, some nil_pointer)
  | some j ↦ elim (get_elem? items j) [
    | none ↦ (items, some nil_pointer)
    | some it ↦ let (it', failure) = reserve clk ref l.quantity ttl it in (set items j it', failure)
  ]
]

unfoldable pub reserve_lines :
    Clock
    → ReservationRef
    → Duration
    → Dict ℕ
    → List StockItem
    → List ReservationLine
    → List StockItem × Option Error
reserve_lines clk ref ttl by_sku items [] = (items, none)
reserve_lines clk ref ttl by_sku items (l ∷ lines) =
    let (items', failure) = reserve_line clk ref ttl by_sku items l in
    elim failure [
      | some e ↦ (items', some e)
      | none ↦ reserve_lines (after 3 clk) ref ttl by_sku items' lines
    ]

unfoldable pub allocate :
    Clock
    → List StockItem
    → ReservationRef
    → List ReservationLine
    → Duration
    → List StockItem × Option Error
unfolding index_items check_lines check_line reserve_lines reserve_line
allocate clk items ref lines ttl =
    if ref_is_zero ref
    then (items, some (violated v_reservation_ref))
    else let by_sku = index_items 0 items [] in
      elim (check_lines ref by_sku items 0 lines) [
        | some e ↦ (items, some e)
        | none ↦ reserve_lines clk ref ttl by_sku items lines
      ]
