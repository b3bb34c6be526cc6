-- ===== src/Inventory/Application/ReserveCommit.antt =====
-- What the closure of Reserve commits where it succeeds: application/reserve.go over the store in memory.
use go_ddd_template.Base.{
  ◌≡◌, refl, ap, ◌∙◌, sym, subst, String, Option, none, some, List, [], All, All-map, All-get_elem?,
  Duration, ok, true, arith, inl, inr, Option-cases, Result-cases, Clock,
}
use go_ddd_template.Base.Dict.{Dict, lookup}
use go_ddd_template.Shared.Rows.{apply_group}
use go_ddd_template.Shared.Uow.Outcome.{Outcome}
use go_ddd_template.Inventory.Errors.{Error}
use go_ddd_template.Inventory.Values.{Sku, ReservationRef}
use go_ddd_template.Inventory.StockItem.{StockItem}
use go_ddd_template.Inventory.StockItem.Keys.{AreKeyed, reserve-AreKeyed}
use go_ddd_template.Inventory.ReservationService.{
  ReservationLine, index_items, reserve_lines, allocate,
}
use go_ddd_template.Inventory.ReservationService.Outcome.{
  LineHolds, allocate_phases, index_items-Sound, reserve_lines-All as reserve_lines-LineHolds,
}
use go_ddd_template.Inventory.ReservationService.Places.{
  index_items-reserve_lines, reserve_lines-All,
}
use go_ddd_template.Inventory.Store.{StockRow, stock_row_has_reservation, load_stock_items_by_sku}
use go_ddd_template.Inventory.Store.Unit.{World, Tx, begin, commit, finish, within, save, tx_stock}
use go_ddd_template.Inventory.Store.Versions.{writes_of, save-Checked, Checked-save}
use go_ddd_template.Inventory.Store.Written.{
  written, row_written, stock_row_has_reservation-written, load_stock_items_by_sku-AreKeyed,
}
use go_ddd_template.Inventory.Application.{Vars, Done}
use go_ddd_template.Inventory.Application.Commands.{save_and_collect, reserve_command, next_vars}

-- The committed row of the SKU has the reference.
abbrev pub IsCommitted : ReservationRef → Dict StockRow → String → Type 0
IsCommitted ref rows k =
    (row : StockRow) × (lookup k rows ≡ some row) × (stock_row_has_reservation row ref.value ≡ true)

abbrev pub AllCommitted : ReservationRef → List ReservationLine → Dict StockRow → Type 0
AllCommitted ref lines rows = All (λ (l : ReservationLine). IsCommitted ref rows l.sku.value) lines

module _ (ref : ReservationRef) (lines : List ReservationLine) (ttl : Duration) where
  -- The rows that are written for what Allocate leaves.
  allocate-AllCommitted :
      (rows : Dict StockRow) (clk : Clock) (items : List StockItem)
      → All AreKeyed items
      → (allocate clk items ref lines ttl).1 ≡ none
      → AllCommitted ref lines
          (apply_group (writes_of rows (allocate clk items ref lines ttl).0) rows)
  allocate-AllCommitted rows clk items a h =
      let by_sku = index_items 0 items [] in
      let (z, passes, e) = allocate_phases clk items ref lines ttl h in
      let left = (reserve_lines clk ref ttl by_sku items lines).0 in
      let same = index_items-reserve_lines ref ttl by_sku clk items 0 lines z passes in
      let keyed =
        reserve_lines-All ref ttl by_sku clk items 0 lines z passes AreKeyed
          (λ it c qty k. reserve-AreKeyed c ref qty ttl it k) a in
      subst
        (λ (out : List StockItem × Option Error).
          AllCommitted ref lines (apply_group (writes_of rows out.0) rows))
        (sym e)
        (All-map
          (λ (l : ReservationLine) (held : LineHolds ref by_sku left l).
            let (n, at_k, (it, at_n, named, has)) = held in
            (
              written rows it,
              row_written rows left l.sku.value n it (ap (λ by. lookup l.sku.value by) same ∙ at_k)
                  at_n,
              stock_row_has_reservation-written rows ref it
                  (All-get_elem? AreKeyed left n it keyed at_n) has,
            ))
          lines
          (reserve_lines-LineHolds ref ttl by_sku clk items 0 lines z passes
            (index_items-Sound items)))

  abbrev Good : {R : Type 0} → Vars R × World → Type 0
  Good s = AllCommitted ref lines s.1.rows

  finish-Good :
      (out : (Vars Done × Tx) × Option Error)
      → (out.1 ≡ none → AllCommitted ref lines (commit out.0.1).rows)
      → Outcome (λ s. Unit) Good (finish out)
  finish-Good ((vars, tx), some e) c = tt
  finish-Good ((vars, tx), none) c = c refl

  -- A Save that succeeds leaves the rows of its aggregates to the commit.
  rows-save_and_collect :
      (vars : Vars Done) (w : World) (items : List StockItem)
      → (save_and_collect tx_stock items (vars, begin w)).1 ≡ none
      → (commit (save_and_collect tx_stock items (vars, begin w)).0.1).rows
        ≡ apply_group (writes_of w.rows items) w.rows
  unfolding save_and_collect commit
  rows-save_and_collect vars w items h = elim (Option-cases (save w.rows items []).2) [
    | inl e ↦ ground (arith, h, e, save-Checked w.rows items [] (Checked-save w.rows items [] e))
    | inr (failure, e) ↦ absurd (ground (arith, h, e))
  ]

  reserve_command_allocates :
      (skus : List Sku) (vars : Vars Done) (w : World)
      → let command = reserve_command tx_stock ref lines skus ttl (vars, begin w) in
        command.1 ≡ none
        → (items : List StockItem) × (load_stock_items_by_sku w.rows skus [] ≡ ok items)
          × ((allocate (vars.attempts 0).clock items ref lines ttl).1 ≡ none)
          × (command
              ≡ save_and_collect tx_stock
                  (allocate (vars.attempts 0).clock items ref lines ttl).0
                  (next_vars vars, begin w))
  unfolding reserve_command
  reserve_command_allocates skus vars w h =
      elim (Result-cases (load_stock_items_by_sku w.rows skus [])) [
        | inl (items, e) ↦
            elim (Option-cases (allocate (vars.attempts 0).clock items ref lines ttl).1) [
              | inl f ↦ (items, e, f, ground (arith, e, f))
              | inr (failure, f) ↦ absurd (ground (arith, h, e, f))
            ]
        | inr (failure, e) ↦ absurd (ground (arith, h, e))
      ]

  reserve_command-AllCommitted :
      (skus : List Sku) (vars : Vars Done) (w : World)
      → let command = reserve_command tx_stock ref lines skus ttl (vars, begin w) in
        command.1 ≡ none → AllCommitted ref lines (commit command.0.1).rows
  reserve_command-AllCommitted skus vars w h =
      let (items, e, f, same) = reserve_command_allocates skus vars w h in
      let clk = (vars.attempts 0).clock in
      let left = (allocate clk items ref lines ttl).0 in
      let keyed = load_stock_items_by_sku-AreKeyed w.rows skus [] items tt e in
      let rows =
        ap (λ (out : (Vars Done × Tx) × Option Error). (commit out.0.1).rows) same
        ∙ rows-save_and_collect (next_vars vars) w left
            (sym (ap (λ (out : (Vars Done × Tx) × Option Error). out.1) same) ∙ h) in
      subst (AllCommitted ref lines) (sym rows) (allocate-AllCommitted w.rows clk items keyed f)

  pub reserve_command-Good :
      (skus : List Sku) (vars : Vars Done) (w : World)
      → Outcome (λ s. Unit) Good (within (reserve_command tx_stock ref lines skus ttl) (vars, w))
  unfolding within
  reserve_command-Good skus vars w =
      finish-Good (reserve_command tx_stock ref lines skus ttl (vars, begin w))
        (reserve_command-AllCommitted skus vars w)
