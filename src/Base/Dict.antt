-- ===== src/Base/Dict.antt =====
-- A Go map with string keys, as an association list without repeated keys. A `range` loop visits
-- the entries in the order of the list, which stands for the order that the run picks.
use go_ddd_template.Base.Tests.{if◌then◌else◌}
use go_ddd_template.Base.Lists.{keep_if}
use mathlib.Core.Bool.{Bool, false}
use text.Mathlib.TextPositions.{eq_refl}
use mathlib.Core.Path.{◌≡◌, refl}
use mathlib.Core.Option.{Option, none, some}
use mathlib.Core.List.{List, [], ◌∷◌, ◌++◌}
use Prim.Native.String.{String}
use native.Mathlib.Omega.{arith}
use text.Mathlib.Text.{◌==◌ as str_eq}
use text.Mathlib.TextEquality.{eq_iff}

abbrev pub Dict {ℓ} : Type ℓ → Type ℓ
Dict V = List (String × V)

module _ {ℓ} {V : Type ℓ} where
  -- v, ok := m[key]
  unfoldable pub lookup : String → Dict V → Option V
  lookup key [] = none
  lookup key ((first, v) ∷ rest) = if str_eq first key then some v else lookup key rest

  -- m[key] = v
  unfoldable pub insert : String → V → Dict V → Dict V
  insert key v [] = (key, v) ∷ []
  insert key v ((first, old) ∷ rest) =
      if str_eq first key then (first, v) ∷ rest else (first, old) ∷ insert key v rest

  -- delete(m, k)
  unfoldable pub delete : String → Dict V → Dict V
  delete k [] = []
  delete k ((j, v) ∷ m) = let rest = delete k m in if str_eq j k then rest else (j, v) ∷ rest

  abbrev pub Distinct : Dict V → Type ℓ
  Distinct [] = Unit
  Distinct ((k, v) ∷ m) = (lookup k m ≡ none) × Distinct m

  pub lookup-insert :
      (key at : String) (v : V) (m : Dict V)
      → lookup at (insert key v m) ≡ (if str_eq key at then some v else lookup at m)
  unfolding lookup insert
  lookup-insert key at v [] = refl
  lookup-insert key at v ((first, old) ∷ rest) =
      ground (arith, lookup-insert key at v rest, eq_iff first at, eq_iff first key, eq_iff key at)

  pub lookup-delete :
      (k j : String) (m : Dict V)
      → lookup j (delete k m) ≡ (if str_eq k j then none else lookup j m)
  unfolding lookup delete
  lookup-delete k j [] = ground arith
  lookup-delete k j ((i, v) ∷ m) =
      ground (arith, lookup-delete k j m, eq_iff i k, eq_iff i j, eq_iff k j)

  pub insert-Distinct : (k : String) (v : V) (m : Dict V) → Distinct m → Distinct (insert k v m)
  unfolding insert lookup
  insert-Distinct k v [] d = (refl, tt)
  insert-Distinct k v ((j, w) ∷ m) d =
      ground (arith, insert-Distinct k v m d.1, lookup-insert k j v m, eq_iff j k, eq_iff k j)

  pub delete-Distinct : (k : String) (m : Dict V) → Distinct m → Distinct (delete k m)
  unfolding delete lookup
  delete-Distinct k [] d = tt
  delete-Distinct k ((j, w) ∷ m) d = ground (arith, delete-Distinct k m d.1, lookup-delete k j m)

  pub delete_fresh : (k : String) (m : Dict V) → lookup k m ≡ none → delete k m ≡ m
  unfolding delete lookup
  delete_fresh k [] h = refl
  delete_fresh k ((j, v) ∷ m) h = ground (arith, delete_fresh k m)

  pub insert_fresh :
      (k : String) (v : V) (m : Dict V) → lookup k m ≡ none → insert k v m ≡ m ++ (k, v) ∷ []
  unfolding insert lookup
  insert_fresh k v [] h = refl
  insert_fresh k v ((j, w) ∷ m) h = ground (arith, insert_fresh k v m)

  pub delete-insert :
      (k : String) (v : V) (m : Dict V) → lookup k m ≡ none → delete k (insert k v m) ≡ m
  unfolding insert lookup delete
  delete-insert k v [] h = ground (arith, eq_iff k k)
  delete-insert k v ((j, w) ∷ m) h = ground (arith, delete-insert k v m)

  lookup-middle_ne :
      (j k : String) (v : V) (front rest : Dict V)
      → lookup j (front ++ (k, v) ∷ rest) ≡ none
      → str_eq k j ≡ false
  unfolding lookup
  lookup-middle_ne j k v [] rest h = ground arith
  lookup-middle_ne j k v ((i, w) ∷ front) rest h = ground (arith, lookup-middle_ne j k v front rest)

  -- Deleting the key of an entry takes that entry out, and no other.
  pub delete-middle :
      (k : String) (v : V) (front rest : Dict V)
      → Distinct (front ++ (k, v) ∷ rest)
      → delete k (front ++ (k, v) ∷ rest) ≡ front ++ rest
  unfolding delete
  delete-middle k v [] rest d = ground (arith, eq_refl k, delete_fresh k rest d.0)
  delete-middle k v ((i, w) ∷ front) rest d = ground (
    arith,
    eq_iff i k,
    eq_iff k i,
    lookup-middle_ne i k v front rest d.0,
    delete-middle k v front rest d.1,
  )

  -- In a map without repeated keys, what stands before an entry does not have its key.
  pub fresh-middle :
      (k : String) (v : V) (front rest : Dict V)
      → Distinct (front ++ (k, v) ∷ rest)
      → lookup k front ≡ none
  unfolding lookup
  fresh-middle k v [] rest d = refl
  fresh-middle k v ((i, w) ∷ front) rest d = ground (
    arith,
    eq_iff i k,
    eq_iff k i,
    lookup-middle_ne i k v front rest d.0,
    fresh-middle k v front rest d.1,
  )

  -- What a filter leaves under a key.
  abbrev pub kept : (String × V → Bool) → String → Option V → Option V
  kept p k none = none
  kept p k (some v) = if p (k, v) then some v else none

  pub lookup-keep_if :
      (p : String × V → Bool) (k : String) (m : Dict V)
      → Distinct m
      → lookup k (keep_if p m) ≡ kept p k (lookup k m)
  unfolding lookup
  lookup-keep_if p k [] d = refl
  lookup-keep_if p k ((j, v) ∷ m) d = ground (arith, eq_iff j k, lookup-keep_if p k m d.1)

  pub keep_if-Distinct : (p : String × V → Bool) (m : Dict V) → Distinct m → Distinct (keep_if p m)
  keep_if-Distinct p [] d = tt
  keep_if-Distinct p ((j, v) ∷ m) d =
      ground (arith, lookup-keep_if p j m d.1, keep_if-Distinct p m d.1)
