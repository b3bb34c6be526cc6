-- ===== src/Inventory/Application/Stock.antt =====
-- The use cases on one stock item: Replenisher of application/replenish.go and StockViewer of
-- application/query_stock.go.
use go_ddd_template.Base.{
  ℕ, String, true, false, Option, none, some, [], ◌∷◌, GoInt, Result, ok, err, ◌>>=◌, map_err,
}
use go_ddd_template.Inventory.Errors.{Error, is_sentinel, stock_item_not_found}
use go_ddd_template.Inventory.Values.{Quantity, Sku, new_sku, new_quantity}
use go_ddd_template.Inventory.StockItem.{
  StockItem, new_stock_item, replenish, reserved, pull_events,
}
use go_ddd_template.Inventory.Validation.{locate}
use go_ddd_template.Inventory.Ports.{StockStore}
use go_ddd_template.Inventory.Application.{Attempt, Deps, Vars, run_and_dispatch, run_checked}
use go_ddd_template.Inventory.Application.Commands.{next_vars}

pub record ReplenishInput : Type 0 where
  pub sku : String
  pub quantity : GoInt

pub record StockResult : Type 0 where
  pub sku : String
  pub available : GoInt
  pub reserved : GoInt
  pub version : GoInt

abbrev pub no_result : StockResult
no_result = record { sku = ""; available = 0; reserved = 0; version = 0 }

abbrev pub result_of : StockItem → StockResult
result_of item = record {
  sku = item.sku.value;
  available = item.available.value;
  reserved = (reserved item).value;
  version = item.version;
}

-- The aggregate to replenish: the loaded one, or a new one where there is none.
unfoldable pub item_or_new : String → Sku → Result Error StockItem → Result Error StockItem
unfolding is_sentinel new_stock_item
item_or_new id sku (ok item) = ok item
item_or_new id sku (err e) = elim (is_sentinel e stock_item_not_found) [
  | true ↦ new_stock_item id sku
  | false ↦ err e
]

module _ {T : Type 0} (store : StockStore T) where
  -- The closure of Replenish.
  unfoldable pub replenish_command :
      Sku → Quantity → Vars StockResult × T → (Vars StockResult × T) × Option Error
  unfolding item_or_new replenish locate pull_events
  replenish_command sku qty (vars, tx) =
      let (tx', loaded) = store.load sku tx in
      let vars' = next_vars vars in
      elim (item_or_new (vars.attempts 0).id sku loaded) [
        | err e ↦ ((vars', tx'), some e)
        | ok item ↦
            let (item', refused) = replenish (vars.attempts 0).clock qty item in
            elim refused [
              | some e ↦ ((vars', tx'), some (locate "" e))
              | none ↦
                  let (tx'', saved, failure) = store.save (item' ∷ []) tx' in
                  elim failure [
                    | some e ↦ ((vars', tx''), some e)
                    | none ↦ elim saved [
                      | [] ↦ ((vars', tx''), none)
                      | item'' ∷ others ↦
                          let (pulled, events) = pull_events item'' in
                          (
                            (record vars' { events = events; result = result_of pulled }, tx''),
                            none,
                          )
                    ]
                  ]
            ]
      ]

unfoldable pub check_replenish : ReplenishInput → Result Error (Sku × Quantity)
unfolding new_sku new_quantity
check_replenish input = do
  sku ← map_err (locate "") (new_sku input.sku)
  qty ← map_err (locate "") (new_quantity input.quantity)
  ok (sku, qty)

unfoldable pub replenish_use_case :
    {T S : Type 0} → Deps T S → (ℕ → Attempt) → ReplenishInput → S → S × Result Error StockResult
unfolding replenish_command run_and_dispatch check_replenish
replenish_use_case deps attempts input =
    run_checked deps (λ (sku, qty). replenish_command deps.work.repos.stock sku qty)
      (record { attempts = attempts; events = []; result = no_result }) (check_replenish input)

abbrev query_loaded :
    {S : Type 0} → StockStore S → Result Error Sku → S → S × Result Error StockResult
query_loaded read (err e) s = (s, err e)
query_loaded read (ok sku) s =
    let (s', loaded) = read.load sku s in (s', loaded >>= λ item. ok (result_of item))

unfoldable pub query_stock : {S : Type 0} → StockStore S → String → S → S × Result Error StockResult
unfolding new_sku locate
query_stock read sku_text = query_loaded read (map_err (locate "") (new_sku sku_text))
