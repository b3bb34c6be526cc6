-- ===== src/Inventory/PostgresTests.antt =====
-- Runs of the theorems on the inventory's stores on PostgreSQL.
use go_ddd_template.Base.{
  ◌≡◌, refl, subst, List, ◌++◌, Elem, Elem-last, Elem-append, Elem-append_left, inl, inr, ◌-◌, ◌%◌,
  some, none, [], ◌∷◌, arith, ok, trim_space,
}
use go_ddd_template.Inventory.Errors.{wrapped, concurrency_conflict}
use go_ddd_template.Inventory.StockItem.{StockItem}
use go_ddd_template.Inventory.Postgres.{StockItemRow, StockReservationRow, load}
use go_ddd_template.Inventory.Postgres.Save.{save_one}
use go_ddd_template.Inventory.Postgres.Tables.{
  Database, IsArrangement, Tables, tables, find_sku, has_key,
}
use go_ddd_template.Inventory.Postgres.SaveLoad.{IsStorable, IsReadBack, next, load-save_one}
use go_ddd_template.Inventory.Postgres.Conflict.{save_one_stale}
use go_ddd_template.Inventory.Postgres.Truncation.{load-save_one_truncated}
use go_ddd_template.Inventory.ItemTests.{quantity, bolts, bolts-IsValid}

-- The row of the bolts before two of them were reserved.
abbrev bolts_row : StockItemRow
bolts_row = record { id = "item-1"; sku = "BOLT"; available = 7; version = 1 }

abbrev shelf : Tables
shelf = record { items = bolts_row ∷ []; reservations = [] }

-- A database that visits the first row last and keeps times in microseconds.
abbrev first_last : List StockReservationRow → List StockReservationRow
first_last [] = []
first_last (r ∷ rows) = rows ++ r ∷ []

first_last_kept :
    (r : StockReservationRow) (rows : List StockReservationRow)
    → Elem r rows
    → Elem r (first_last rows)
first_last_kept r [] e = e
first_last_kept r (x ∷ rows) (inl here) =
    subst (λ y. Elem r (rows ++ y ∷ [])) here (Elem-last r rows)
first_last_kept r (x ∷ rows) (inr later) = Elem-append_left r rows (x ∷ []) later

first_last_only :
    (r : StockReservationRow) (rows : List StockReservationRow)
    → Elem r (first_last rows)
    → Elem r rows
first_last_only r [] e = e
first_last_only r (x ∷ rows) e = elim (Elem-append r rows (x ∷ []) e) [
  | inl rest ↦ inr rest
  | inr (inl last) ↦ inl last
  | inr (inr none_left) ↦ absurd none_left.lower
]

first_last-IsArrangement : IsArrangement first_last
first_last-IsArrangement = record {
  kept = λ r rows. first_last_kept r rows;
  only = λ r rows. first_last_only r rows;
}

abbrev database : Database
database = record { order = first_last; column_time = λ t. t - t % 1000 }

bolts-IsStorable : IsStorable bolts
unfolding trim_space
bolts-IsStorable = record {
  valid = bolts-IsValid;
  sku_name = (refl, refl);
  names = ((refl, refl), tt);
  kept = (tt, tt);
  small = omega arith;
  version_small = omega arith;
}

load-save_one_example :
    ((save_one (tables database) bolts shelf).2 ≡ none)
    × ((save_one (tables database) bolts shelf).1 ≡ next bolts)
    × IsReadBack database
        (next bolts)
        (load (tables database) bolts.sku (save_one (tables database) bolts shelf).0)
unfolding find_sku
load-save_one_example =
    load-save_one database bolts bolts_row shelf first_last-IsArrangement bolts-IsStorable
      (omega arith, refl, refl, refl)

-- Another transaction has updated the row since the bolts were loaded.
abbrev updated_shelf : Tables
updated_shelf = record { items = record bolts_row { version = 2 } ∷ []; reservations = [] }

save_one_stale_example :
    save_one (tables database) bolts updated_shelf
    ≡ (updated_shelf, bolts, some (wrapped concurrency_conflict))
unfolding find_sku
save_one_stale_example =
    save_one_stale database bolts updated_shelf (refl, tt) (omega arith) (omega arith) refl

abbrev too_many : StockItem
too_many = record bolts { available = quantity 4_294_967_303; reservations = []; version = 0 }

abbrev no_rows_yet : Tables
no_rows_yet = record { items = []; reservations = [] }

load-save_one_truncated_example :
    ((save_one (tables database) too_many no_rows_yet).2 ≡ none)
    × (load (tables database) too_many.sku (save_one (tables database) too_many no_rows_yet).0
        ≡ ok (record too_many { available = quantity 7; version = 1; events = [] }))
unfolding trim_space has_key
load-save_one_truncated_example =
    load-save_one_truncated database too_many no_rows_yet first_last-IsArrangement refl refl
      (refl, refl) refl (omega arith) (omega arith)
