-- ===== src/Inventory/ReservationService/Atomic.antt =====
-- Allocate is all or nothing: its second phase cannot fail.
use go_ddd_template.Base.{
  ℕ, suc, true, false, Option, none, some, List, [], ◌∷◌, get_elem?, set, Duration, Clock, after,
  if◌then◌else◌, ◌≡◌, arith, eq_refl, get_elem?-set_self, get_elem?-set_ne, Option-cases, ◌⊎◌, inl,
  inr, refl, ◌∙◌, sym,
}
use native.Mathlib.Decide.{ℕ_discrete}
use go_ddd_template.Base.Dict.{Dict, lookup, lookup-insert}
use go_ddd_template.Inventory.Errors.{Error}
use go_ddd_template.Inventory.Values.{ReservationRef, is_zero, greater_than, ref_is_zero}
use go_ddd_template.Inventory.StockItem.{StockItem, reserve, has_reservation, pending_reservation}
use go_ddd_template.Inventory.ReservationService.{
  ReservationLine, deref, check_line, check_lines, reserve_line, reserve_lines, index_items,
  allocate,
}

module _ (clk : Clock) (ref : ReservationRef) (ttl : Duration) where
  -- A line that passes the check of the first phase is reserved without an error.
  reserve_passes :
      (l : ReservationLine) (it : StockItem)
      → ref_is_zero ref ≡ false
      → is_zero l.quantity ≡ false
      → (if has_reservation ref it then false else greater_than l.quantity it.available) ≡ false
      → ((reserve clk ref l.quantity ttl it).1 ≡ none)
        × (has_reservation ref (reserve clk ref l.quantity ttl it).0 ≡ true)
  unfolding reserve has_reservation
  reserve_passes l it r z g = ground (
    arith,
    eq_refl ref.value,
    lookup-insert ref.value ref.value (pending_reservation (clk 0) ref l.quantity ttl)
        it.reservations,
  )

-- Looking a pointer up after a write through another one.
pub deref-set :
    (p : Option ℕ) (j : ℕ) (items : List StockItem) (it it' : StockItem)
    → get_elem? items j ≡ some it
    → (deref p (set items j it') ≡ deref p items) ⊎ (deref p (set items j it') ≡ some it')
deref-set none j items it it' h = inl refl
deref-set (some i) j items it it' h = elim (ℕ_discrete i j) [
  | yes e ↦ inr (rw e (get_elem?-set_self items j it' it h))
  | no d ↦ inl (get_elem?-set_ne items j i it' (λ e. d (sym e)))
]

-- What a pointer that is not nil points to.
pub deref-eq-some :
    (p : Option ℕ) (items : List StockItem) (it : StockItem)
    → deref p items ≡ some it
    → (j : ℕ) × (p ≡ some j) × (get_elem? items j ≡ some it)
deref-eq-some none items it h = cc
deref-eq-some (some j) items it h = (j, refl, h)

module _ (ref : ReservationRef) (by_sku : Dict ℕ) where
  -- A line that passes has an item, a positive quantity, and the stock or the reference.
  pub check_line_passes :
      (items : List StockItem) (i : ℕ) (l : ReservationLine)
      → check_line ref by_sku items i l ≡ none
      → (it : StockItem) × (deref (lookup l.sku.value by_sku) items ≡ some it)
        × (is_zero l.quantity ≡ false)
        × ((if has_reservation ref it then false else greater_than l.quantity it.available) ≡ false)
  unfolding check_line
  check_line_passes items i l h = elim (Option-cases (deref (lookup l.sku.value by_sku) items)) [
    | inl e ↦ ground arith
    | inr (it, e) ↦ (it, e, ground arith, ground arith)
  ]

  check_line_of_passes :
      (items : List StockItem) (i : ℕ) (l : ReservationLine) (it : StockItem)
      → deref (lookup l.sku.value by_sku) items ≡ some it
      → is_zero l.quantity ≡ false
      → (if has_reservation ref it then false else greater_than l.quantity it.available) ≡ false
      → check_line ref by_sku items i l ≡ none
  unfolding check_line
  check_line_of_passes items i l it h z g = ground arith

  -- A line still passes after a write of an item that has the reference.
  check_line-set :
      (items : List StockItem) (i j : ℕ) (l : ReservationLine) (it it' : StockItem)
      → get_elem? items j ≡ some it
      → has_reservation ref it' ≡ true
      → check_line ref by_sku items i l ≡ none
      → check_line ref by_sku (set items j it') i l ≡ none
  check_line-set items i j l it it' h has passes =
      let (x, at_x, z, g) = check_line_passes items i l passes in
      elim (deref-set (lookup l.sku.value by_sku) j items it it' h) [
        | inl e ↦ check_line_of_passes (set items j it') i l x (e ∙ at_x) z g
        | inr e ↦ check_line_of_passes (set items j it') i l it' e z (rw has)
      ]

  abbrev pub Passes : List StockItem → ℕ → List ReservationLine → Type 0
  Passes items i lines = check_lines ref by_sku items i lines ≡ none

  pub check_lines-cons :
      (items : List StockItem) (i : ℕ) (l : ReservationLine) (lines : List ReservationLine)
      → Passes items i (l ∷ lines)
      → (check_line ref by_sku items i l ≡ none) × Passes items (suc i) lines
  unfolding check_lines
  check_lines-cons items i l lines h = ground arith

  pub check_lines-set :
      (items : List StockItem) (i j : ℕ) (lines : List ReservationLine) (it it' : StockItem)
      → get_elem? items j ≡ some it
      → has_reservation ref it' ≡ true
      → Passes items i lines
      → Passes (set items j it') i lines
  unfolding check_lines
  check_lines-set items i j [] it it' h has passes = refl
  check_lines-set items i j (l ∷ lines) it it' h has passes =
      let (first, rest) = check_lines-cons items i l lines passes in
      ground (
        arith,
        check_line-set items i j l it it' h has first,
        check_lines-set items (suc i) j lines it it' h has rest,
      )

module _ (clk : Clock) (ref : ReservationRef) (ttl : Duration) (by_sku : Dict ℕ) where
  -- A line that passes is reserved at its item, which has the reference then.
  pub reserve_line_passes :
      (items : List StockItem) (i : ℕ) (l : ReservationLine)
      → ref_is_zero ref ≡ false
      → check_line ref by_sku items i l ≡ none
      → (j : ℕ) × (it : StockItem) × (lookup l.sku.value by_sku ≡ some j)
        × (get_elem? items j ≡ some it)
        × (reserve_line clk ref ttl by_sku items l
            ≡ (set items j (reserve clk ref l.quantity ttl it).0, none))
        × (has_reservation ref (reserve clk ref l.quantity ttl it).0 ≡ true)
  unfolding reserve_line
  reserve_line_passes items i l r h =
      let (it, at_it, z, g) = check_line_passes ref by_sku items i l h in
      let (j, p, e) = deref-eq-some (lookup l.sku.value by_sku) items it at_it in
      let (done, has) = reserve_passes clk ref ttl l it r z g in (j, it, p, e, ground arith, has)

pub reserve_lines-cons :
    (clk : Clock) (ref : ReservationRef) (ttl : Duration) (by_sku : Dict ℕ)
    (items items' : List StockItem) (l : ReservationLine) (lines : List ReservationLine)
    → reserve_line clk ref ttl by_sku items l ≡ (items', none)
    → reserve_lines clk ref ttl by_sku items (l ∷ lines)
      ≡ reserve_lines (after 3 clk) ref ttl by_sku items' lines
unfolding reserve_lines
reserve_lines-cons clk ref ttl by_sku items items' l lines h = ground arith

module _ (clk : Clock) (ref : ReservationRef) (ttl : Duration) (by_sku : Dict ℕ)
    (items : List StockItem) (l : ReservationLine) (lines : List ReservationLine) where
  pub reserve_lines_next :
      (reserve_line clk ref ttl by_sku items l).1 ≡ none
      → reserve_lines clk ref ttl by_sku items (l ∷ lines)
        ≡ reserve_lines
            (after 3 clk)
            ref
            ttl
            by_sku
            (reserve_line clk ref ttl by_sku items l).0
            lines
  unfolding reserve_lines
  reserve_lines_next h = ground arith

  pub reserve_lines_stop :
      (e : Error)
      → (reserve_line clk ref ttl by_sku items l).1 ≡ some e
      → reserve_lines clk ref ttl by_sku items (l ∷ lines)
        ≡ ((reserve_line clk ref ttl by_sku items l).0, some e)
  unfolding reserve_lines
  reserve_lines_stop e h = ground arith

-- The second phase never fails after the first has passed.
pub reserve_lines-Passes :
    (clk : Clock) (ref : ReservationRef) (ttl : Duration) (by_sku : Dict ℕ) (items : List StockItem)
    (i : ℕ) (lines : List ReservationLine)
    → ref_is_zero ref ≡ false
    → Passes ref by_sku items i lines
    → (reserve_lines clk ref ttl by_sku items lines).1 ≡ none
reserve_lines-Passes clk ref ttl by_sku items i [] r h = unfold reserve_lines in refl
reserve_lines-Passes clk ref ttl by_sku items i (l ∷ lines) r h =
    let (first, rest) = check_lines-cons ref by_sku items i l lines h in
    let (j, it, p, e, done, has) = reserve_line_passes clk ref ttl by_sku items i l r first in
    rw (reserve_lines-cons clk ref ttl by_sku items _ l lines done) (
      reserve_lines-Passes (after 3 clk) ref ttl by_sku _ (suc i) lines r
        (check_lines-set ref by_sku items (suc i) j lines it _ e has rest))

-- All or nothing: an Allocate that fails, for whatever reason, leaves every item as it was.
pub allocate_fails :
    (clk : Clock) (items : List StockItem) (ref : ReservationRef) (lines : List ReservationLine)
    (ttl : Duration) (e : Error)
    → (allocate clk items ref lines ttl).1 ≡ some e
    → (allocate clk items ref lines ttl).0 ≡ items
unfolding allocate
allocate_fails clk items ref lines ttl e h =
    elim (Option-cases (check_lines ref (index_items 0 items []) items 0 lines)) [
      | inl passes ↦
          ground (arith, reserve_lines-Passes clk ref ttl (index_items 0 items []) items 0 lines)
      | inr (e', refused) ↦ ground arith
    ]
