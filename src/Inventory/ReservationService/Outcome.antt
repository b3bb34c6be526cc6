-- ===== src/Inventory/ReservationService/Outcome.antt =====
-- What an Allocate that succeeds has done: every line is held.
use native.Mathlib.Decide.{ℕ_discrete}
use go_ddd_template.Base.{
  Bool-cases, str_eq, ℕ, suc, zero, ◌+◌, String, true, false, Option, none, some, List, [], ◌∷◌,
  get_elem?, set, Duration, Clock, after, ◌≡◌, arith, eq_iff, get_elem?-set_self, get_elem?-set_ne,
  ◌⊎◌, inl, inr, All, All-map, refl, ◌∙◌, ap, sym, subst,
}
use go_ddd_template.Base.Dict.{Dict, lookup, lookup-insert}
use go_ddd_template.Inventory.Errors.{Error}
use go_ddd_template.Inventory.Values.{Quantity, Sku, ReservationRef, ref_is_zero}
use go_ddd_template.Inventory.StockItem.{StockItem, reserve, has_reservation}
use go_ddd_template.Inventory.ReservationService.{
  ReservationLine, reserve_lines, index_items, allocate,
}
use go_ddd_template.Inventory.ReservationService.Atomic.{
  Passes, check_lines-cons, check_lines-set, reserve_line_passes, reserve_lines-cons,
}

-- The item at place `j` is that of the SKU.
abbrev pub SkuAt : List StockItem → String → ℕ → Type 0
SkuAt items k j = (it : StockItem) × (get_elem? items j ≡ some it) × (it.sku.value ≡ k)

-- The item at place `j` is that of the SKU, and has the reference.
abbrev pub HoldsAt : ReservationRef → List StockItem → String → ℕ → Type 0
HoldsAt ref items k j =
    (it : StockItem) × (get_elem? items j ≡ some it)
    × (it.sku.value ≡ k)
    × (has_reservation ref it ≡ true)

abbrev pub Sound : Dict ℕ → List StockItem → Type 0
Sound by_sku items = (k : String) (j : ℕ) → lookup k by_sku ≡ some j → SkuAt items k j

-- The index after the items behind place `i` names those items, or what it named before.
index_items-SkuAt :
    (i : ℕ) (items : List StockItem) (by_sku : Dict ℕ) (k : String) (j : ℕ)
    → lookup k (index_items i items by_sku) ≡ some j
    → (lookup k by_sku ≡ some j) ⊎ ((n : ℕ) × (j ≡ i + n) × SkuAt items k n)
unfolding index_items
index_items-SkuAt i [] by_sku k j h = inl h
index_items-SkuAt i (it ∷ items) by_sku k j h = elim (index_items-SkuAt (suc i) items _ k j h) [
  | inl e ↦ elim (Bool-cases (str_eq it.sku.value k)) [
    | inl y ↦ inr (
      zero,
      ground (arith, lookup-insert it.sku.value k i by_sku),
      (it, refl, (eq_iff it.sku.value k).0 y),
    )
    | inr n ↦ inl (ground (arith, lookup-insert it.sku.value k i by_sku))
  ]
  | inr (n, e, at_n) ↦ inr (suc n, omega arith, at_n)
]

pub reserve-sku :
    (clk : Clock) (ref : ReservationRef) (qty : Quantity) (ttl : Duration) (s : StockItem)
    → (reserve clk ref qty ttl s).0.sku ≡ s.sku
unfolding reserve
reserve-sku clk ref qty ttl s = ground arith

same_place :
    (items : List StockItem) (j n : ℕ) (it x : StockItem)
    → get_elem? items j ≡ some it
    → j ≡ n
    → get_elem? items n ≡ some x
    → it.sku.value ≡ x.sku.value
same_place items j n it x h p at_n = cc (ap (λ i. get_elem? items i) p)

SkuAt-set :
    (items : List StockItem) (j : ℕ) (it it' : StockItem) (k : String) (n : ℕ)
    → get_elem? items j ≡ some it
    → it'.sku ≡ it.sku
    → SkuAt items k n
    → SkuAt (set items j it') k n
SkuAt-set items j it it' k n h same (x, at_n, e) = elim (ℕ_discrete j n) [
  | yes p ↦ (
    it',
    rw (← p) (get_elem?-set_self items j it' it h),
    ap (λ (u : Sku). u.value) same ∙ same_place items j n it x h p at_n ∙ e,
  )
  | no p ↦ (x, get_elem?-set_ne items j n it' p ∙ at_n, e)
]

HoldsAt-set :
    (ref : ReservationRef) (items : List StockItem) (j : ℕ) (it it' : StockItem) (k : String)
    (n : ℕ)
    → get_elem? items j ≡ some it
    → it'.sku ≡ it.sku
    → has_reservation ref it' ≡ true
    → HoldsAt ref items k n
    → HoldsAt ref (set items j it') k n
HoldsAt-set ref items j it it' k n h same has (x, at_n, e, old) = elim (ℕ_discrete j n) [
  | yes p ↦ (
    it',
    rw (← p) (get_elem?-set_self items j it' it h),
    ap (λ (u : Sku). u.value) same ∙ same_place items j n it x h p at_n ∙ e,
    has,
  )
  | no p ↦ (x, get_elem?-set_ne items j n it' p ∙ at_n, e, old)
]

reserve_line-Sound :
    (by_sku : Dict ℕ) (items : List StockItem) (j : ℕ) (it it' : StockItem)
    → get_elem? items j ≡ some it
    → it'.sku ≡ it.sku
    → Sound by_sku items
    → Sound by_sku (set items j it')
reserve_line-Sound by_sku items j it it' h same sound k n e =
    SkuAt-set items j it it' k n h same (sound k n e)

-- After the second phase: the line's item, by the index, has the reference.
abbrev pub SkuHolds : ReservationRef → Dict ℕ → List StockItem → String → Type 0
SkuHolds ref by_sku items k = (n : ℕ) × (lookup k by_sku ≡ some n) × HoldsAt ref items k n

abbrev pub LineHolds : ReservationRef → Dict ℕ → List StockItem → ReservationLine → Type 0
LineHolds ref by_sku items l = SkuHolds ref by_sku items l.sku.value

module _ (ref : ReservationRef) (ttl : Duration) (by_sku : Dict ℕ) where
  -- What has the reference keeps it through the second phase.
  reserve_lines-HoldsAt :
      (clk : Clock) (items : List StockItem) (i : ℕ) (lines : List ReservationLine) (k : String)
      (n : ℕ)
      → ref_is_zero ref ≡ false
      → Passes ref by_sku items i lines
      → HoldsAt ref items k n
      → HoldsAt ref (reserve_lines clk ref ttl by_sku items lines).0 k n
  reserve_lines-HoldsAt clk items i [] k n r h held = unfold reserve_lines in held
  reserve_lines-HoldsAt clk items i (l ∷ lines) k n r h held =
      let (first, rest) = check_lines-cons ref by_sku items i l lines h in
      let (j, it, p, e, done, has) = reserve_line_passes clk ref ttl by_sku items i l r first in
      rw (reserve_lines-cons clk ref ttl by_sku items _ l lines done) (
        reserve_lines-HoldsAt (after 3 clk) _ (suc i) lines k n r
          (check_lines-set ref by_sku items (suc i) j lines it _ e has rest)
          (HoldsAt-set ref items j it _ k n e (reserve-sku clk ref l.quantity ttl it) has held))

  -- Every line has its item hold the reference after the second phase.
  pub reserve_lines-All :
      (clk : Clock) (items : List StockItem) (i : ℕ) (lines : List ReservationLine)
      → ref_is_zero ref ≡ false
      → Passes ref by_sku items i lines
      → Sound by_sku items
      → All (LineHolds ref by_sku (reserve_lines clk ref ttl by_sku items lines).0) lines
  reserve_lines-All clk items i [] r h sound = tt
  reserve_lines-All clk items i (l ∷ lines) r h sound =
      let (first, rest) = check_lines-cons ref by_sku items i l lines h in
      let (j, it, p, e, done, has) = reserve_line_passes clk ref ttl by_sku items i l r first in
      let it' = (reserve clk ref l.quantity ttl it).0 in
      let same = reserve-sku clk ref l.quantity ttl it in
      let (x, at_j, named) = sound l.sku.value j p in
      let rest' = check_lines-set ref by_sku items (suc i) j lines it it' e has rest in
      subst (λ (out : List StockItem × Option Error). All (LineHolds ref by_sku out.0) (l ∷ lines))
        (sym (reserve_lines-cons clk ref ttl by_sku items (set items j it') l lines done))
        (
          (
            j,
            p,
            reserve_lines-HoldsAt (after 3 clk) (set items j it') (suc i) lines l.sku.value j r
                rest'
                (
                  it',
                  get_elem?-set_self items j it' it e,
                  ap (λ (u : Sku). u.value) same ∙ same_place items j j it x e refl at_j ∙ named,
                  has,
                ),
          ),
          reserve_lines-All (after 3 clk) (set items j it') (suc i) lines r rest'
              (reserve_line-Sound by_sku items j it it' e same sound),
        )

pub allocate_phases :
    (clk : Clock) (items : List StockItem) (ref : ReservationRef) (lines : List ReservationLine)
    (ttl : Duration)
    → (allocate clk items ref lines ttl).1 ≡ none
    → (ref_is_zero ref ≡ false)
      × Passes ref (index_items 0 items []) items 0 lines
      × (allocate clk items ref lines ttl
          ≡ reserve_lines clk ref ttl (index_items 0 items []) items lines)
unfolding allocate
allocate_phases clk items ref lines ttl h = ground arith

pub allocate-Passes :
    (clk : Clock) (items : List StockItem) (ref : ReservationRef) (lines : List ReservationLine)
    (ttl : Duration)
    → ref_is_zero ref ≡ false
    → Passes ref (index_items 0 items []) items 0 lines
    → allocate clk items ref lines ttl
      ≡ reserve_lines clk ref ttl (index_items 0 items []) items lines
unfolding allocate
allocate-Passes clk items ref lines ttl r h = ground arith

pub index_items-Sound : (items : List StockItem) → Sound (index_items 0 items []) items
index_items-Sound items k j h = elim (index_items-SkuAt 0 items [] k j h) [
  | inl e ↦ unfold lookup in cc
  | inr (n, e, at_n) ↦ subst (SkuAt items k) (omega arith) at_n
]

-- After an Allocate that succeeds, every one of its lines has an item of its SKU that holds the
-- reference.
pub allocate_holds :
    (clk : Clock) (items : List StockItem) (ref : ReservationRef) (lines : List ReservationLine)
    (ttl : Duration)
    → (allocate clk items ref lines ttl).1 ≡ none
    → All (λ l. (n : ℕ) × HoldsAt ref (allocate clk items ref lines ttl).0 l.sku.value n) lines
allocate_holds clk items ref lines ttl h =
    let by_sku = index_items 0 items [] in
    let (r, passes, e) = allocate_phases clk items ref lines ttl h in
    subst
      (λ (out : List StockItem × Option Error).
        All (λ (l : ReservationLine). (n : ℕ) × HoldsAt ref out.0 l.sku.value n) lines)
      (sym e)
      (All-map (λ l held. (held.0, held.2)) lines
        (reserve_lines-All ref ttl by_sku clk items 0 lines r passes (index_items-Sound items)))
