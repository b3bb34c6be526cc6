-- ===== src/Inventory/ServiceTests.antt =====
-- Runs of the theorems on the reservation service at two stock items.
use go_ddd_template.Base.{◌≡◌, refl, inl, List, [], ◌∷◌, ◌++◌, All, map, arith, String}
use go_ddd_template.Base.Dict.{insert}
use go_ddd_template.Inventory.Errors.{sentinel, wrapped, insufficient_stock}
use go_ddd_template.Inventory.Values.{Quantity, Sku, is_zero, greater_than}
use go_ddd_template.Inventory.StockItem.{StockItem, has_reservation, reserve}
use go_ddd_template.Inventory.StockItem.Invariant.{IsValid, stock}
use go_ddd_template.Inventory.ReservationService.{ReservationLine, allocate}
use go_ddd_template.Inventory.ReservationService.Atomic.{allocate_fails}
use go_ddd_template.Inventory.ReservationService.Outcome.{HoldsAt, allocate_holds}
use go_ddd_template.Inventory.ReservationService.Stock.{allocate_stock}
use go_ddd_template.Inventory.ReservationService.Duplicate.{allocate_drops_duplicate}
use go_ddd_template.Inventory.ItemTests.{quantity, ref_of, noon, bolts, bolts-IsValid}

abbrev sku_of : String → Sku
sku_of s = record { value = s }

abbrev pub nuts : StockItem
nuts = record {
  id = "item-2";
  sku = sku_of "NUT";
  available = quantity 1;
  reservations = [];
  version = 1;
  events = [];
}

nuts-IsValid : IsValid nuts
nuts-IsValid = record { distinct = tt; held = tt; bounded = omega arith }

abbrev shelf : List StockItem
shelf = bolts ∷ nuts ∷ []

abbrev line : String → Quantity → ReservationLine
line s q = record { sku = sku_of s; quantity = q }

abbrev too_many : List ReservationLine
too_many = line "BOLT" (quantity 2) ∷ line "NUT" (quantity 2) ∷ []

abbrev enough : List ReservationLine
enough = line "BOLT" (quantity 2) ∷ line "NUT" (quantity 1) ∷ []

allocate_fails_example : (allocate noon shelf (ref_of "r1") too_many 50).0 ≡ shelf
unfolding allocate has_reservation insert is_zero greater_than
allocate_fails_example =
    allocate_fails noon shelf (ref_of "r1") too_many 50 (wrapped (sentinel insufficient_stock)) refl

allocate_holds_example :
    All
      (λ l.
        (n : _) × HoldsAt
          (ref_of "r1")
          (allocate noon shelf (ref_of "r1") enough 50).0
          l.sku.value
          n)
      enough
unfolding allocate has_reservation reserve insert is_zero greater_than
allocate_holds_example = allocate_holds noon shelf (ref_of "r1") enough 50 refl

allocate_stock_example :
    All IsValid (allocate noon shelf (ref_of "r1") enough 50).0
    × (map stock (allocate noon shelf (ref_of "r1") enough 50).0 ≡ map stock shelf)
allocate_stock_example =
    allocate_stock noon shelf (ref_of "r1") enough 50 (bolts-IsValid, (nuts-IsValid, tt))
      (omega arith, (omega arith, tt))

allocate_drops_duplicate_example :
    allocate noon shelf (ref_of "r1") (enough ++ line "BOLT" (quantity 3) ∷ []) 50
    ≡ allocate noon shelf (ref_of "r1") enough 50
unfolding allocate has_reservation reserve insert is_zero greater_than
allocate_drops_duplicate_example =
    allocate_drops_duplicate noon shelf (ref_of "r1") enough (line "BOLT" (quantity 3)) 50 refl
      (inl refl) refl
