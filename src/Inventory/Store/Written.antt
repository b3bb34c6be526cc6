-- ===== src/Inventory/Store/Written.antt =====
-- Which row a commit leaves under a SKU: stock_store.go and rows.go of adapter/outbound/memory, on
-- aggregates that the reservation service has indexed.
use go_ddd_template.Base.{
  ℕ, zero, suc, ◌+◌, String, true, Option, some, List, [], ◌∷◌, All, All-append, get_elem?, ◌≡◌,
  ◌⊎◌, inl, inr, refl, ap, ◌∙◌, sym, str_eq, arith, if◌then◌else◌, Bool-cases, ok, Option-cases,
  Result-cases, ◌++◌, subst,
}
use go_ddd_template.Base.Dict.{Dict, lookup, insert, lookup-insert}
use go_ddd_template.Shared.Rows.{last_write, apply_group, lookup-apply_group}
use go_ddd_template.Inventory.Values.{Sku, ReservationRef}
use go_ddd_template.Inventory.Reservation.{Reservation}
use go_ddd_template.Inventory.StockItem.{
  StockItem, has_reservation, reservations_of, index_reservations, reconstitute_stock_item,
}
use go_ddd_template.Inventory.StockItem.Keys.{IsKeyed, AreKeyed, index_reservations-IsKeyed}
use go_ddd_template.Inventory.ReservationService.{index_items}
use go_ddd_template.Inventory.Store.{
  StockRow, any_ref, reservations_to_rows, stock_item_to_row, stock_row_has_reservation,
  stock_row_to_stock_item, rows_to_reservations, load_stock_items_by_sku,
}
use go_ddd_template.Inventory.Store.Versions.{version_behind, writes_of}

-- The row that Save writes for an aggregate.
abbrev pub written : Dict StockRow → StockItem → StockRow
written rows it = stock_item_to_row it (version_behind (lookup it.sku.value rows))

-- The SKU's place in the index, and the row of the aggregate at that place.
abbrev pub WrittenAt :
    Dict StockRow → String → Option ℕ → ℕ → List StockItem → Option StockRow → Type 0
WrittenAt rows k place i items row =
    (n : ℕ) × (it : StockItem) × (get_elem? items n ≡ some it)
    × (place ≡ some (i + n))
    × (row ≡ some (written rows it))

-- The aggregate that the index names for a SKU is the last one of that SKU, so its row is the one
-- that stays.
last_write-writes_of :
    (rows : Dict StockRow) (k : String) (i : ℕ) (items : List StockItem) (by_sku : Dict ℕ)
    (before : Option StockRow)
    → ((lookup k (index_items i items by_sku) ≡ lookup k by_sku)
        × (last_write k (writes_of rows items) before ≡ before))
      ⊎ WrittenAt rows k
          (lookup k (index_items i items by_sku))
          i
          items
          (last_write k (writes_of rows items) before)
unfolding index_items
last_write-writes_of rows k i [] by_sku before = inl (refl, refl)
last_write-writes_of rows k i (it ∷ items) by_sku before =
    elim (last_write-writes_of rows k (suc i) items (insert it.sku.value i by_sku)
      (if str_eq it.sku.value k then some (written rows it) else before)) [
        | inl (e, f) ↦ elim (Bool-cases (str_eq it.sku.value k)) [
          | inl y ↦ inr (
            zero,
            it,
            refl,
            ground (arith, e, y, lookup-insert it.sku.value k i by_sku),
            ground (arith, f, y),
          )
          | inr n ↦
              inl
                (ground (arith, e, n, lookup-insert it.sku.value k i by_sku), ground (arith, f, n))
        ]
        | inr (n, x, at_n, e, f) ↦ inr (suc n, x, at_n, e ∙ ap some (omega arith), f)
      ]

pub row_written :
    (rows : Dict StockRow) (items : List StockItem) (k : String) (n : ℕ) (it : StockItem)
    → lookup k (index_items 0 items []) ≡ some n
    → get_elem? items n ≡ some it
    → lookup k (apply_group (writes_of rows items) rows) ≡ some (written rows it)
unfolding lookup
row_written rows items k n it h at_n =
    lookup-apply_group k (writes_of rows items) rows
    ∙ elim (last_write-writes_of rows k 0 items [] (lookup k rows)) [
      | inl (e, f) ↦ absurd (ground (arith, h, e))
      | inr (m, x, at_m, e, f) ↦ ground (arith, h, e, at_n, at_m, f)
    ]

any_ref-reservations_to_rows :
    (ref : String) (r : Reservation) (m : Dict Reservation)
    → All IsKeyed m
    → lookup ref m ≡ some r
    → any_ref ref (reservations_to_rows (reservations_of m)) ≡ true
unfolding lookup reservations_to_rows reservations_of
any_ref-reservations_to_rows ref r [] a h = absurd (ground (arith, h))
any_ref-reservations_to_rows ref r ((key, x) ∷ m) a h =
    ground (arith, a.0, h, any_ref-reservations_to_rows ref r m a.1)

-- The row of an aggregate that has a reference has it too.
pub stock_row_has_reservation-written :
    (rows : Dict StockRow) (ref : ReservationRef) (it : StockItem)
    → AreKeyed it
    → has_reservation ref it ≡ true
    → stock_row_has_reservation (written rows it) ref.value ≡ true
unfolding stock_row_has_reservation stock_item_to_row has_reservation
stock_row_has_reservation-written rows ref it a h =
    elim (Option-cases (lookup ref.value it.reservations)) [
      | inl e ↦ absurd (ground (arith, h, e))
      | inr (r, e) ↦ any_ref-reservations_to_rows ref.value r it.reservations a e
    ]

stock_row_to_stock_item-AreKeyed :
    (row : StockRow) (it : StockItem) → stock_row_to_stock_item row ≡ ok it → AreKeyed it
unfolding stock_row_to_stock_item reconstitute_stock_item
stock_row_to_stock_item-AreKeyed row it h =
    elim (Result-cases (rows_to_reservations row.reservations [])) [
      | inl (rs, e) ↦
          let same : it.reservations ≡ index_reservations [] rs = ground (arith, h, e) in
          subst (All IsKeyed) (sym same) (index_reservations-IsKeyed rs [] tt)
      | inr (failure, e) ↦ absurd (ground (arith, h, e))
    ]

pub load_stock_items_by_sku-AreKeyed :
    (rows : Dict StockRow) (skus : List Sku) (items loaded : List StockItem)
    → All AreKeyed items
    → load_stock_items_by_sku rows skus items ≡ ok loaded
    → All AreKeyed loaded
unfolding load_stock_items_by_sku
load_stock_items_by_sku-AreKeyed rows [] items loaded a h =
    subst (All AreKeyed) (ground (arith, h)) a
load_stock_items_by_sku-AreKeyed rows (sku ∷ skus) items loaded a h =
    elim (Option-cases (lookup sku.value rows)) [
      | inl e ↦ load_stock_items_by_sku-AreKeyed rows skus items loaded a (ground (arith, h, e))
      | inr (row, e) ↦ elim (Result-cases (stock_row_to_stock_item row)) [
        | inl (it, f) ↦
            load_stock_items_by_sku-AreKeyed rows skus (items ++ it ∷ []) loaded
              (All-append AreKeyed items (it ∷ []) a
                (stock_row_to_stock_item-AreKeyed row it f, tt))
              (ground (arith, h, e, f))
        | inr (failure, f) ↦ absurd (ground (arith, h, e, f))
      ]
    ]
