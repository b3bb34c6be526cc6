-- ===== src/Inventory/Store/Versions.antt =====
-- The optimistic version check of Save: what it finds, and what the gap between it and the commit lets
-- through.
use go_ddd_template.Base.{
  ◌<◌, ◌≡◌, refl, String, Option, none, some, List, [], ◌∷◌, ◌++◌, All, arith, GoInt, int_mod,
  add_int, Result, ok, err, str_eq, eq_iff, eq_refl, ◌⊎◌, inl, inr, if◌then◌else◌, ap, ◌∙◌, sym,
  append-nil, append_assoc, Elem, All-Elem, Bool-cases,
}
use go_ddd_template.Base.Dict.{Dict, lookup}
use go_ddd_template.Shared.Rows.{Staging, stage, apply_group, last_write, lookup-apply_group}
use go_ddd_template.Inventory.Errors.{Error, wrapped, concurrency_conflict}
use go_ddd_template.Inventory.StockItem.{StockItem}
use go_ddd_template.Inventory.Store.{StockRow, stock_item_to_row}
use go_ddd_template.Inventory.Store.Unit.{next_version, save}

-- The version behind the committed row.
abbrev pub version_behind : Option StockRow → GoInt
version_behind none = 1
version_behind (some row) = add_int row.version 1

next_version_ok :
    (rows : Dict StockRow) (item : StockItem) (n : GoInt)
    → next_version rows item ≡ ok n
    → n ≡ version_behind (lookup item.sku.value rows)
unfolding next_version
next_version_ok rows item n h = ground arith

-- The check fails with a conflict, and in no other way.
next_version_err :
    (rows : Dict StockRow) (item : StockItem) (e : Error)
    → next_version rows item ≡ err e
    → e ≡ wrapped concurrency_conflict
unfolding next_version
next_version_err rows item e h = ground arith

abbrev pub writes_of : Dict StockRow → List StockItem → Staging StockRow
writes_of rows [] = []
writes_of rows (s ∷ items) =
    (s.sku.value, stock_item_to_row s (version_behind (lookup s.sku.value rows)))
    ∷ writes_of rows items

abbrev pub Checked : Dict StockRow → StockItem → Type 0
Checked rows s = next_version rows s ≡ ok (version_behind (lookup s.sku.value rows))

Result-cases {ℓ κ} :
    {E : Type ℓ} {A : Type κ} (r : Result E A) → ((e : E) × (r ≡ err e)) ⊎ ((a : A) × (r ≡ ok a))
Result-cases (ok a) = inr (a, refl)
Result-cases (err e) = inl (e, refl)

Checked-cases :
    (rows : Dict StockRow) (s : StockItem)
    → (next_version rows s ≡ err (wrapped concurrency_conflict)) ⊎ Checked rows s
Checked-cases rows s = elim (Result-cases (next_version rows s)) [
  | inl (e, h) ↦ inl (h ∙ ap err (next_version_err rows s e h))
  | inr (n, h) ↦ inr (h ∙ ap ok (next_version_ok rows s n h))
]

-- Where every aggregate passes the check, Save succeeds and stages one row for each, in their order.
pub save-Checked :
    (rows : Dict StockRow) (items : List StockItem) (staged : Staging StockRow)
    → All (Checked rows) items
    → ((save rows items staged).2 ≡ none)
      × ((save rows items staged).1 ≡ staged ++ writes_of rows items)
unfolding save stage
save-Checked rows [] staged a = ground (arith, append-nil staged)
save-Checked rows (s ∷ items) staged a =
    let row = stock_item_to_row s (version_behind (lookup s.sku.value rows)) in
    let rest = save-Checked rows items (staged ++ (s.sku.value, row) ∷ []) a.1 in
    ground (arith, a.0, rest, append_assoc staged ((s.sku.value, row) ∷ []) (writes_of rows items))

pub Checked-save :
    (rows : Dict StockRow) (items : List StockItem) (staged : Staging StockRow)
    → (save rows items staged).2 ≡ none
    → All (Checked rows) items
unfolding save stage
Checked-save rows [] staged h = tt
Checked-save rows (s ∷ items) staged h = elim (Checked-cases rows s) [
  | inl e ↦ absurd (ground (arith, e))
  | inr c ↦ (
    c,
    Checked-save rows items
        (stage s.sku.value (stock_item_to_row s (version_behind (lookup s.sku.value rows))) staged)
        (ground (arith, c)),
  )
]

-- Save fails on the first aggregate that does not pass, with the conflict.
save_conflicts :
    (rows : Dict StockRow) (items : List StockItem) (staged : Staging StockRow) (t : StockItem)
    → Elem t items
    → next_version rows t ≡ err (wrapped concurrency_conflict)
    → (save rows items staged).2 ≡ some (wrapped concurrency_conflict)
unfolding save stage
save_conflicts rows [] staged t m e = absurd m.lower
save_conflicts rows (s ∷ items) staged t (inl here) e = ground (arith, e)
save_conflicts rows (s ∷ items) staged t (inr later) e = elim (Checked-cases rows s) [
  | inl c ↦ ground (arith, c)
  | inr c ↦ ground (
    arith,
    c,
    save_conflicts rows items
        (stage s.sku.value (stock_item_to_row s (version_behind (lookup s.sku.value rows))) staged)
        t later e,
  )
]

-- A row under the key, one version behind which the committed row is.
abbrev pub Bumped : Dict StockRow → String → Option StockRow → Type 0
Bumped rows k o = (row : StockRow) × (o ≡ some row) × (row.version ≡ version_behind (lookup k rows))

Bumped-new :
    (rows : Dict StockRow) (k : String) (s : StockItem) (before : Option StockRow)
    → s.sku.value ≡ k
    → Bumped rows k (
        if str_eq s.sku.value k
        then some (stock_item_to_row s (version_behind (lookup s.sku.value rows)))
        else before)
unfolding stock_item_to_row
Bumped-new rows k s before e = (
  stock_item_to_row s (version_behind (lookup s.sku.value rows)),
  ground (arith, e, eq_iff s.sku.value k),
  ap (λ j. version_behind (lookup j rows)) e,
)

Bumped-old :
    (rows : Dict StockRow) (k : String) (s : StockItem) (before : Option StockRow)
    → Bumped rows k before
    → Bumped rows k (
        if str_eq s.sku.value k
        then some (stock_item_to_row s (version_behind (lookup s.sku.value rows)))
        else before)
Bumped-old rows k s before b = elim (Bool-cases (str_eq s.sku.value k)) [
  | inl y ↦ Bumped-new rows k s before ((eq_iff s.sku.value k).0 y)
  | inr n ↦ rw n b
]

Bumped-kept :
    (rows : Dict StockRow) (k : String) (items : List StockItem) (before : Option StockRow)
    → Bumped rows k before
    → Bumped rows k (last_write k (writes_of rows items) before)
Bumped-kept rows k [] before b = b
Bumped-kept rows k (s ∷ items) before b = Bumped-kept rows k items _ (Bumped-old rows k s before b)

Bumped-made :
    (rows : Dict StockRow) (k : String) (items : List StockItem) (before : Option StockRow)
    (s : StockItem)
    → Elem s items
    → s.sku.value ≡ k
    → Bumped rows k (last_write k (writes_of rows items) before)
Bumped-made rows k [] before s m e = absurd m.lower
Bumped-made rows k (x ∷ items) before s (inl here) e =
    Bumped-kept rows k items _
      (Bumped-new rows k x before (ap (λ (y : StockItem). y.sku.value) (sym here) ∙ e))
Bumped-made rows k (x ∷ items) before s (inr later) e = Bumped-made rows k items _ s later e

stale_check :
    (rows rows' : Dict StockRow) (t : StockItem)
    → t.version < int_mod
    → Checked rows t
    → Bumped rows t.sku.value (lookup t.sku.value rows')
    → next_version rows' t ≡ err (wrapped concurrency_conflict)
unfolding next_version
stale_check rows rows' t b c (row, e, v) = ground (arith, e, v)

overwritten :
    (rows : Dict StockRow) (items : List StockItem) (s : StockItem)
    (before before' : Option StockRow)
    → Elem s items
    → last_write s.sku.value (writes_of rows items) before
      ≡ last_write s.sku.value (writes_of rows items) before'
overwritten rows [] s before before' m = absurd m.lower
overwritten rows (x ∷ items) s before before' (inl here) = ground (arith, eq_refl s.sku.value)
overwritten rows (x ∷ items) s before before' (inr later) = overwritten rows items s _ _ later

module _ (rows : Dict StockRow) (items others : List StockItem) (s t : StockItem) where
  -- The rows after a transaction that saves `items` and commits.
  abbrev pub after_commit : Dict StockRow
  after_commit = apply_group (save rows items []).1 rows

  -- Two transactions whose Saves both succeed on the same committed rows save aggregates that share
  -- a SKU. If the first commits before the second calls Save, that Save is refused with the
  -- concurrency conflict. Versions are 64-bit patterns.
  pub save-after_commit :
      (save rows items []).2 ≡ none
      → (save rows others []).2 ≡ none
      → Elem s items
      → Elem t others
      → s.sku.value ≡ t.sku.value
      → t.version < int_mod
      → (save after_commit others []).2 ≡ some (wrapped concurrency_conflict)
  save-after_commit h h' m m' e b =
      let (_, staged) = save-Checked rows items [] (Checked-save rows items [] h) in
      let bumped = Bumped-made rows t.sku.value items (lookup t.sku.value rows) s m e in
      save_conflicts after_commit others [] t m' (
        stale_check rows after_commit t b
          (All-Elem (Checked rows) t others m' (Checked-save rows others [] h'))
          (rw (lookup-apply_group t.sku.value (save rows items []).1 rows, staged) bumped))

  -- Two transactions whose Saves both succeed on the same committed rows commit one after the
  -- other, which the store lets them do if both call Save before either commits. The row under a
  -- SKU that the second saves is then what it is without the first transaction, with the version
  -- behind that of the row before both: an update of the first to that SKU is lost, and no conflict
  -- is reported.
  pub save-before_commit :
      (save rows items []).2 ≡ none
      → (save rows others []).2 ≡ none
      → Elem t others
      → (lookup t.sku.value (apply_group (save rows others []).1 after_commit)
          ≡ lookup t.sku.value (apply_group (save rows others []).1 rows))
        × Bumped rows t.sku.value
            (lookup t.sku.value (apply_group (save rows others []).1 after_commit))
  save-before_commit h h' m' =
      let k = t.sku.value in
      let (_, staged) = save-Checked rows others [] (Checked-save rows others [] h') in
      rw
        (
          lookup-apply_group k (save rows others []).1 after_commit,
          lookup-apply_group k (save rows others []).1 rows,
          staged,
        )
        (
          overwritten rows others t (lookup k after_commit) (lookup k rows) m',
          Bumped-made rows k others (lookup k after_commit) t m' refl,
        )
