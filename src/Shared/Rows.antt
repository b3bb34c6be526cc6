-- ===== src/Shared/Rows.antt =====
-- The rows of a backing store in memory and the writes that a transaction stages for them:
-- contexts/inventory/internal/adapter/outbound/memory/rows.go, of which the ordering context has its
-- own copy. Every method runs under the one mutex, so a call is a step.
use go_ddd_template.Base.{
  String, Option, some, List, [], ◌∷◌, ◌++◌, ◌≡◌, refl, if◌then◌else◌, str_eq,
}
use go_ddd_template.Base.Dict.{Dict, lookup, insert, lookup-insert}

-- keyed[R] is a key with its row; staging[R] is the list of them.
abbrev pub Staging {ℓ} : Type ℓ → Type ℓ
Staging R = List (String × R)

module _ {ℓ} {R : Type ℓ} where
  unfoldable pub stage : String → R → Staging R → Staging R
  stage key row writes = writes ++ (key, row) ∷ []

  unfoldable pub apply_group : Staging R → Dict R → Dict R
  unfolding insert
  apply_group [] m = m
  apply_group ((key, row) ∷ writes) m = apply_group writes (insert key row m)

  -- The last write of a key.
  abbrev pub last_write : String → Staging R → Option R → Option R
  last_write k [] before = before
  last_write k ((key, row) ∷ writes) before =
      last_write k writes (if str_eq key k then some row else before)

  -- After a commit a key has its last staged row, or the row that it had.
  pub lookup-apply_group :
      (k : String) (writes : Staging R) (m : Dict R)
      → lookup k (apply_group writes m) ≡ last_write k writes (lookup k m)
  unfolding apply_group
  lookup-apply_group k [] m = refl
  lookup-apply_group k ((key, row) ∷ writes) m =
      rw (lookup-apply_group k writes (insert key row m), lookup-insert key k row m)
