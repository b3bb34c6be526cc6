-- ===== src/Inventory/StoreTests.antt =====
-- Runs of the theorems on the store in memory and on the use cases over it.
use go_ddd_template.Base.{
  ℕ, ◌≡◌, refl, inl, Option, none, some, List, [], ◌∷◌, arith, ok, GoInt, trim_space,
}
use go_ddd_template.Base.Dict.{Dict, lookup}
use go_ddd_template.Shared.Uow.{Executor}
use go_ddd_template.Shared.Rows.{apply_group}
use go_ddd_template.Inventory.Errors.{
  Error, sentinel, wrapped, concurrency_conflict, reservation_not_found,
}
use go_ddd_template.Inventory.Event.{DomainEvent}
use go_ddd_template.Inventory.StockItem.{StockItem}
use go_ddd_template.Inventory.Store.{
  StockRow, stock_item_to_row, stock_row_to_stock_item, load_stock_items_by_reservation,
}
use go_ddd_template.Inventory.Store.Unit.{World, within, save, next_version}
use go_ddd_template.Inventory.Store.RoundTrip.{stock_row_to_stock_item-to_row}
use go_ddd_template.Inventory.Store.Versions.{Bumped, save-after_commit, save-before_commit}
use go_ddd_template.Inventory.Application.{Attempt}
use go_ddd_template.Inventory.Application.UseCases.{confirm_use_case}
use go_ddd_template.Inventory.Application.Rollback.{
  memory_deps, confirms, perform, use_case_rolls_back,
}
use go_ddd_template.Inventory.ItemTests.{quantity, noon, bolts, bolts-IsValid}
use go_ddd_template.Inventory.ServiceTests.{nuts}

stock_row_to_stock_item-to_row_example :
    stock_row_to_stock_item (stock_item_to_row bolts 4)
    ≡ ok (record bolts { version = 4; events = [] })
unfolding trim_space
stock_row_to_stock_item-to_row_example =
    stock_row_to_stock_item-to_row bolts 4 bolts-IsValid (refl, refl) ((refl, refl), tt)

abbrev rows : Dict StockRow
rows = ("BOLT", stock_item_to_row bolts 1) ∷ ("NUT", stock_item_to_row nuts 1) ∷ []

abbrev fewer_bolts : StockItem
fewer_bolts = record bolts { available = quantity 1 }

save-after_commit_example :
    (save (apply_group (save rows (bolts ∷ nuts ∷ []) []).1 rows) (fewer_bolts ∷ []) []).2
    ≡ some (wrapped concurrency_conflict)
unfolding save next_version lookup stock_item_to_row
save-after_commit_example =
    save-after_commit rows (bolts ∷ nuts ∷ []) (fewer_bolts ∷ []) bolts fewer_bolts refl refl
      (inl refl) (inl refl) refl (omega arith)

save-before_commit_example :
    (lookup "BOLT" (
        apply_group
          (save rows (fewer_bolts ∷ []) []).1
          (apply_group (save rows (bolts ∷ nuts ∷ []) []).1 rows))
      ≡ lookup "BOLT" (apply_group (save rows (fewer_bolts ∷ []) []).1 rows))
    × Bumped rows "BOLT" (
        lookup "BOLT" (
          apply_group
            (save rows (fewer_bolts ∷ []) []).1
            (apply_group (save rows (bolts ∷ nuts ∷ []) []).1 rows)))
unfolding save next_version lookup stock_item_to_row
save-before_commit_example =
    save-before_commit rows (bolts ∷ nuts ∷ []) (fewer_bolts ∷ []) bolts fewer_bolts refl refl
      (inl refl)

abbrev pub warehouse : World
warehouse = record { rows = rows; stores = record { queue = []; log = [] } }

abbrev pub three_attempts : Executor
three_attempts = record { max_attempts = 3; base_backoff = 5_000_000 }

abbrev pub no_dispatch : List DomainEvent → World → World
no_dispatch events w = w

abbrev pub no_wait : GoInt → World → World × Option Error
no_wait d w = (w, none)

abbrev pub tries : ℕ → Attempt
tries n = record { clock = noon; id = "item-3" }

use_case_rolls_back_example :
    (perform (memory_deps three_attempts no_dispatch no_wait) tries (confirms "r9") warehouse).0
    ≡ warehouse
unfolding confirm_use_case trim_space within load_stock_items_by_reservation stock_item_to_row
use_case_rolls_back_example =
    use_case_rolls_back three_attempts no_dispatch no_wait (λ w. w ≡ warehouse) (λ d w p. p)
      (omega arith) (omega arith) tries (confirms "r9") warehouse (sentinel reservation_not_found)
      refl refl
