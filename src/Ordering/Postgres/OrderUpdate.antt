-- ===== src/Ordering/Postgres/OrderUpdate.antt =====
-- Save and Load of an order that has been loaded: update in order_store.go of
-- adapter/outbound/postgres.
use go_ddd_template.Base.{
  ◌<◌, ◌+◌, ◌^◌, true, none, List, [], ◌∷◌, ◌≡◌, inl, inr, refl, Result-cases, of_int32, arith, ok,
}
use go_ddd_template.Ordering.Order.{Order, reconstitute_order}
use go_ddd_template.Ordering.Store.RoundTrip.{is_known}
use go_ddd_template.Ordering.Postgres.{OrderRow, UpdateOrderParams}
use go_ddd_template.Ordering.Postgres.Orders.{update_params, load, reconstitute, save}
use go_ddd_template.Ordering.Postgres.OrderSaveLoad.{status_kept}
use go_ddd_template.Ordering.Postgres.Tables.{
  Tables, tables, find_order, update_order_rows, update_order,
}

-- The row of an order that has the expected version is updated.
find_order_updated :
    (p : UpdateOrderParams) (r : OrderRow) (rows : List OrderRow)
    → find_order p.id rows ≡ ok r
    → r.version ≡ p.expected
    → (find_order p.id (update_order_rows p rows).0
        ≡ ok (record r { status = p.status; version = p.version }))
      × (0 < (update_order_rows p rows).1)
unfolding find_order update_order_rows
find_order_updated p r [] h e = absurd (ground (arith, h))
find_order_updated p r (x ∷ rows) h e = ground (arith, h, e, find_order_updated p r rows)

-- The tables once an order is updated.
abbrev updated : Order → Tables → Tables
updated o t = record t { orders = (update_order_rows (update_params o) t.orders).0 }

-- Another status and version in the row are another status and version in the order.
reconstitute-updated :
    (row : OrderRow) (t : Tables) (o loaded : Order)
    → reconstitute tables row t ≡ ok loaded
    → is_known o.status ≡ true
    → o.version + 1 < 2 ^ 31
    → reconstitute tables
        (record row { status = (update_params o).status; version = (update_params o).version })
        (updated o t)
      ≡ ok (record loaded { status = o.status; version = o.version + 1 })
unfolding reconstitute reconstitute_order update_params
reconstitute-updated row t o loaded h k b = ground (arith, h, (status_kept o.status k).1)

reconstitute_version :
    (row : OrderRow) (t : Tables) (loaded : Order)
    → reconstitute tables row t ≡ ok loaded
    → loaded.version ≡ of_int32 row.version
unfolding reconstitute reconstitute_order
reconstitute_version row t loaded h = ground (arith, h)

module _ (o loaded : Order) (t : Tables) (k : is_known o.status ≡ true) (pos : 0 < o.version)
    (b : o.version + 1 < 2 ^ 31) (same : loaded.version ≡ o.version) where
  expected_version :
      (row : OrderRow)
      → reconstitute tables row t ≡ ok loaded
      → row.version ≡ (update_params o).expected
  unfolding update_params
  expected_version row e = ground (arith, reconstitute_version row t loaded e, same, b)

  update_order_loaded :
      (row : OrderRow)
      → find_order o.id.value t.orders ≡ ok row
      → reconstitute tables row t ≡ ok loaded
      → update_order (update_params o) t
        ≡ (updated o t, ok (update_order_rows (update_params o) t.orders).1)
  unfolding update_order update_params
  update_order_loaded row f e = ground (
    arith,
    (status_kept o.status k).0,
    find_order_updated (update_params o) row t.orders f (expected_version row e),
  )

  save_loaded :
      (row : OrderRow)
      → find_order o.id.value t.orders ≡ ok row
      → reconstitute tables row t ≡ ok loaded
      → save tables o t ≡ (updated o t, record o { version = o.version + 1 }, none)
  unfolding save
  save_loaded row f e = ground (
    arith,
    pos,
    b,
    update_order_loaded row f e,
    find_order_updated (update_params o) row t.orders f (expected_version row e),
  )

  load_loaded :
      (row : OrderRow)
      → find_order o.id.value t.orders ≡ ok row
      → reconstitute tables row t ≡ ok loaded
      → load tables o.id (updated o t)
        ≡ ok (record loaded { status = o.status; version = o.version + 1 })
  unfolding load update_params
  load_loaded row f e = ground (
    arith,
    find_order_updated (update_params o) row t.orders f (expected_version row e),
    reconstitute-updated row t o loaded e k b,
  )

  -- The row that Load has found.
  loaded_row :
      load tables o.id t ≡ ok loaded
      → (row : OrderRow) × (find_order o.id.value t.orders ≡ ok row)
        × (reconstitute tables row t ≡ ok loaded)
  unfolding load
  loaded_row h = elim (Result-cases (find_order o.id.value t.orders)) [
    | inl (row, f) ↦ (row, f, ground (arith, h, f))
    | inr (e, f) ↦ absurd (ground (arith, h, f))
  ]

  -- Let an order have the identifier under which Load gives one, its version, which is at least 1
  -- and whose next is below 2 ^ 31, and a status that the program makes. Save succeeds with the
  -- next version, and Load then gives the order that was loaded with the new status and version:
  -- Save writes nothing else of it.
  pub load-save_loaded :
      load tables o.id t ≡ ok loaded
      → let out = save tables o t in
        (out.1 ≡ record o { version = o.version + 1 })
        × (out.2 ≡ none)
        × (load tables o.id out.0
            ≡ ok (record loaded { status = o.status; version = o.version + 1 }))
  load-save_loaded h =
      let (row, f, e) = loaded_row h in rw (save_loaded row f e) (refl, refl, load_loaded row f e)
