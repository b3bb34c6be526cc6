-- ===== src/Ordering/Postgres/OrderSaveLoad.antt =====
-- Save, and then Load, of an order on the tables: order_store.go of adapter/outbound/postgres.
use go_ddd_template.Base.{
  ◌<◌, ◌^◌, true, none, List, [], ◌∷◌, ◌++◌, All, ◌≡◌, refl, length, eq_refl, arith, ok, err,
}
use go_ddd_template.Shared.Postgres.{no_rows}
use go_ddd_template.Ordering.Order.{
  Order, OrderStatus, confirmed, cancelled, other, status_string, reconstitute_order,
}
use go_ddd_template.Ordering.Store.RoundTrip.{IsLine, IsOrder, is_known}
use go_ddd_template.Ordering.Postgres.{OrderRow}
use go_ddd_template.Ordering.Postgres.Orders.{
  lines_of_rows, inserted_row, insert, load, reconstitute, save, parse_order_status,
}
use go_ddd_template.Ordering.Postgres.OrderLines.{
  IsSmallLine, rows_from, lines_of_rows-rows_from, by_number-rows_from, of_order-append,
  of_order-rows_from, no_rows-Below, insert_lines-rows_from,
}
use go_ddd_template.Ordering.Values.{new_order_id, new_customer_id, new_reservation_ref}
use go_ddd_template.Ordering.Money.{new_money}
use go_ddd_template.Ordering.Postgres.Tables.{
  allowed_order_status, Tables, tables, find_order, insert_order, of_order, by_number,
}

find_order_inserted :
    (row : OrderRow) (rows : List OrderRow)
    → find_order row.id rows ≡ err no_rows
    → find_order row.id (rows ++ row ∷ []) ≡ ok row
unfolding find_order
find_order_inserted row [] h = ground (arith, eq_refl row.id)
find_order_inserted row (r ∷ rows) h = ground (arith, h, find_order_inserted row rows)

-- The tables once an order is inserted.
abbrev with_order : Order → Tables → Tables
with_order o t = record t {
  orders = t.orders ++ inserted_row o ∷ [];
  lines = t.lines ++ rows_from o.id.value 0 o.lines;
}

lines_of_inserted :
    (o : Order) (t : Tables)
    → All IsLine o.lines
    → All IsSmallLine o.lines
    → length o.lines < 2 ^ 31
    → of_order o.id.value t.lines ≡ []
    → lines_of_rows (by_number (of_order o.id.value (with_order o t).lines)) [] ≡ ok o.lines
lines_of_inserted o t h b n f =
    rw
      (
        of_order-append o.id.value t.lines (rows_from o.id.value 0 o.lines),
        f,
        of_order-rows_from o.id.value 0 o.lines,
        by_number-rows_from o.id.value 0 o.lines (omega arith),
      )
      (lines_of_rows-rows_from o.id.value 0 o.lines [] h b)

-- A status that the program makes is a text that the column allows and that is read back.
pub status_kept :
    (status : OrderStatus)
    → is_known status ≡ true
    → (allowed_order_status (status_string status) ≡ true)
      × (parse_order_status (status_string status) ≡ ok status)
unfolding status_string parse_order_status
status_kept confirmed h = (refl, refl)
status_kept cancelled h = (refl, refl)
status_kept (other n) h = absurd cc

insert_lem :
    (o : Order) (t : Tables)
    → IsOrder o
    → All IsSmallLine o.lines
    → length o.lines < 2 ^ 31
    → find_order o.id.value t.orders ≡ err no_rows
    → of_order o.id.value t.lines ≡ []
    → insert tables o t ≡ (with_order o t, record o { version = 1 }, none)
unfolding insert insert_order
insert_lem o t h b n f g =
    let t' : Tables = record t { orders = t.orders ++ inserted_row o ∷ [] } in
    ground (
      arith,
      f,
      (status_kept o.status h.known).0,
      h.total_money.0,
      insert_lines-rows_from o.id.value 0 o.lines t' h.all_lines b (omega arith)
          (no_rows-Below o.id.value t.lines g),
    )

reconstitute_inserted :
    (o : Order) (t : Tables)
    → IsOrder o
    → All IsSmallLine o.lines
    → length o.lines < 2 ^ 31
    → of_order o.id.value t.lines ≡ []
    → reconstitute tables (inserted_row o) (with_order o t)
      ≡ ok (record o { version = 1; events = [] })
unfolding reconstitute new_order_id new_customer_id new_money new_reservation_ref reconstitute_order
    inserted_row
reconstitute_inserted o t h b n g = ground (
  arith,
  h.id_name.0,
  h.id_name.1,
  h.customer_name.0,
  h.customer_name.1,
  h.ref_name.0,
  h.ref_name.1,
  h.total_money.0,
  h.total_money.1.0,
  h.total_money.1.1,
  (status_kept o.status h.known).1,
  lines_of_inserted o t h.all_lines b n g,
)

module _ (o : Order) (t : Tables) (h : IsOrder o) (b : All IsSmallLine o.lines)
    (n : length o.lines < 2 ^ 31) (f : find_order o.id.value t.orders ≡ err no_rows)
    (g : of_order o.id.value t.lines ≡ []) where
  save_new : o.version ≡ 0 → save tables o t ≡ (with_order o t, record o { version = 1 }, none)
  unfolding save
  save_new z = ground (arith, z, insert_lem o t h b n f g)

  load_new : load tables o.id (with_order o t) ≡ ok (record o { version = 1; events = [] })
  unfolding load inserted_row
  load_new =
      ground
        (arith, find_order_inserted (inserted_row o) t.orders f, reconstitute_inserted o t h b n g)

  -- Save of a new order that is such as the constructors make it, whose quantities and number of
  -- lines are below 2 ^ 31, and whose identifier no row of an order or a line has, succeeds with
  -- the version 1, and Load of its identifier from the tables that it leaves gives the order back,
  -- its lines in their order and without its events.
  pub load-save_new :
      o.version ≡ 0
      → let out = save tables o t in
        (out.1 ≡ record o { version = 1 })
        × (out.2 ≡ none)
        × (load tables o.id out.0 ≡ ok (record o { version = 1; events = [] }))
  load-save_new z = rw (save_new z) (refl, refl, load_new)
