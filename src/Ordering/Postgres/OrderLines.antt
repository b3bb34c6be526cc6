-- ===== src/Ordering/Postgres/OrderLines.antt =====
-- What the tables keep of the lines of an order: the loops of insert and of reconstitute in
-- order_store.go of adapter/outbound/postgres.
use go_ddd_template.Base.{
  ℕ, suc, ◌<◌, ◌+◌, ◌^◌, String, true, false, none, List, [], ◌∷◌, ◌++◌, All, ◌≡◌, ◌⊎◌, inl, inr,
  Bool-cases, refl, length, str_eq, eq_refl, arith, ok, append-nil, append_assoc,
}
use go_ddd_template.Ordering.Order.{OrderLine}
use go_ddd_template.Ordering.Store.RoundTrip.{IsLine}
use go_ddd_template.Ordering.Postgres.{OrderLineRow}
use go_ddd_template.Ordering.Postgres.Orders.{line_of_row, lines_of_rows, row_of_line, insert_lines}
use go_ddd_template.Ordering.Postgres.Tables.{
  Tables, tables, has_line_key, allowed_line, insert_line, of_order, by_number,
}

-- A line whose quantity the column holds.
abbrev pub IsSmallLine : OrderLine → Type 0
IsSmallLine l = l.quantity.value < 2 ^ 31

-- The rows of the lines from number `i` on.
abbrev pub rows_from : String → ℕ → List OrderLine → List OrderLineRow
rows_from id i [] = []
rows_from id i (l ∷ lines) = row_of_line id i l ∷ rows_from id (suc i) lines

line_of_row-row_of_line :
    (id : String) (i : ℕ) (l : OrderLine)
    → IsLine l
    → IsSmallLine l
    → line_of_row (row_of_line id i l) ≡ ok l
unfolding line_of_row row_of_line
line_of_row-row_of_line id i l h b = ground (arith, h.0.0, h.0.1, h.1, h.2.0, h.2.1.0, h.2.1.1)

pub lines_of_rows-rows_from :
    (id : String) (i : ℕ) (lines done : List OrderLine)
    → All IsLine lines
    → All IsSmallLine lines
    → lines_of_rows (rows_from id i lines) done ≡ ok (done ++ lines)
unfolding lines_of_rows
lines_of_rows-rows_from id i [] done h b = ground (arith, append-nil done)
lines_of_rows-rows_from id i (l ∷ lines) done h b = ground (
  arith,
  line_of_row-row_of_line id i l h.0 b.0,
  lines_of_rows-rows_from id (suc i) lines (done ++ l ∷ []) h.1 b.1,
  append_assoc done (l ∷ []) lines,
)

-- The rows are in the order of their numbers.
pub by_number-rows_from :
    (id : String) (i : ℕ) (lines : List OrderLine)
    → i + length lines < 2 ^ 31
    → by_number (rows_from id i lines) ≡ rows_from id i lines
unfolding by_number row_of_line
by_number-rows_from id i [] b = refl
by_number-rows_from id i (l ∷ []) b = refl
by_number-rows_from id i (l ∷ k ∷ lines) b =
    ground (arith, by_number-rows_from id (suc i) (k ∷ lines) (omega arith))

pub of_order-append :
    (id : String) (xs ys : List OrderLineRow)
    → of_order id (xs ++ ys) ≡ of_order id xs ++ of_order id ys
unfolding of_order
of_order-append id [] ys = refl
of_order-append id (x ∷ xs) ys = ground (arith, of_order-append id xs ys)

pub of_order-rows_from :
    (id : String) (i : ℕ) (lines : List OrderLine)
    → of_order id (rows_from id i lines) ≡ rows_from id i lines
unfolding of_order row_of_line
of_order-rows_from id i [] = refl
of_order-rows_from id i (l ∷ lines) =
    ground (arith, eq_refl id, of_order-rows_from id (suc i) lines)

-- Every row of the order has a number below `i`.
abbrev pub Below : String → ℕ → List OrderLineRow → Type 0
Below id i [] = Unit
Below id i (r ∷ rows) = ((str_eq r.order_id id ≡ false) ⊎ (r.line_no < i)) × Below id i rows

Below-no_key :
    (id : String) (i : ℕ) (l : OrderLine) (rows : List OrderLineRow)
    → i < 2 ^ 31
    → Below id i rows
    → has_line_key (row_of_line id i l) rows ≡ false
unfolding row_of_line
Below-no_key id i l [] b h = refl
Below-no_key id i l (r ∷ rows) b (inl differs, h) =
    ground (arith, differs, Below-no_key id i l rows)
Below-no_key id i l (r ∷ rows) b (inr smaller, h) =
    ground (arith, smaller, Below-no_key id i l rows)

Below-append :
    (id : String) (i : ℕ) (l : OrderLine) (rows : List OrderLineRow)
    → i < 2 ^ 31
    → Below id i rows
    → Below id (suc i) (rows ++ row_of_line id i l ∷ [])
unfolding row_of_line
Below-append id i l [] b h = (inr (omega arith), tt)
Below-append id i l (r ∷ rows) b (inl differs, h) = (inl differs, Below-append id i l rows b h)
Below-append id i l (r ∷ rows) b (inr smaller, h) =
    (inr (omega arith), Below-append id i l rows b h)

pub no_rows-Below :
    (id : String) (rows : List OrderLineRow) → of_order id rows ≡ [] → Below id 0 rows
unfolding of_order
no_rows-Below id [] h = tt
no_rows-Below id (r ∷ rows) h = elim (Bool-cases (str_eq r.order_id id)) [
  | inl same ↦ absurd (ground (arith, h, same))
  | inr differs ↦ (inl differs, no_rows-Below id rows (ground (arith, h, differs)))
]

line_allowed :
    (id : String) (i : ℕ) (l : OrderLine)
    → IsLine l
    → IsSmallLine l
    → allowed_line (row_of_line id i l) ≡ true
unfolding row_of_line
line_allowed id i l h b = ground (arith, h.1, h.2.0)

-- All lines are inserted behind the rows that are there.
pub insert_lines-rows_from :
    (id : String) (i : ℕ) (lines : List OrderLine) (t : Tables)
    → All IsLine lines
    → All IsSmallLine lines
    → i + length lines < 2 ^ 31
    → Below id i t.lines
    → insert_lines tables id i lines t
      ≡ (record t { lines = t.lines ++ rows_from id i lines }, none)
unfolding insert_lines insert_line
insert_lines-rows_from id i [] t h b n f = ground (arith, append-nil t.lines)
insert_lines-rows_from id i (l ∷ lines) t h b n f =
    let row = row_of_line id i l in
    let t' : Tables = record t { lines = t.lines ++ row ∷ [] } in
    ground (
      arith,
      line_allowed id i l h.0 b.0,
      Below-no_key id i l t.lines (omega arith) f,
      insert_lines-rows_from id (suc i) lines t' h.1 b.1 (omega arith)
          (Below-append id i l t.lines (omega arith) f),
      append_assoc t.lines (row ∷ []) (rows_from id (suc i) lines),
    )
