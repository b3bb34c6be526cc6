-- ===== src/Base/Lists.antt =====
-- Lists measured and indexed by native numbers, under the library's names.
use Prim.Native.Nat.{ℕ, zero, suc, ◌+◌, ◌-◌, ◌≤◌, min}
use mathlib.Core.Path.{◌≡◌, refl, sym, ap, subst, ◌∙◌}
use mathlib.Core.Logic.{◌≢◌, ◌⊎◌, inl, inr, Lift}
use mathlib.Core.List.{List, [], ◌∷◌, ◌++◌, map}
use mathlib.Core.Bool.{Bool, true, false}
use mathlib.Core.Option.{Option, none, some, some-injective}
use native.Mathlib.Omega.{arith}
use go_ddd_template.Base.Tests.{if◌then◌else◌, Bool-cases}

module _ {ℓ} {A : Type ℓ} where
  abbrev pub length : List A → ℕ
  length [] = 0
  length (x ∷ xs) = suc (length xs)

  abbrev pub get_elem? : List A → ℕ → Option A
  get_elem? [] i = none
  get_elem? (x ∷ xs) zero = some x
  get_elem? (x ∷ xs) (suc i) = get_elem? xs i

  abbrev pub set : List A → ℕ → A → List A
  set [] i v = []
  set (x ∷ xs) zero v = v ∷ xs
  set (x ∷ xs) (suc i) v = x ∷ set xs i v

  -- The elements that pass a Boolean test.
  abbrev pub keep_if : (A → Bool) → List A → List A
  keep_if p [] = []
  keep_if p (x ∷ xs) = let rest = keep_if p xs in if p x then x ∷ rest else rest

  abbrev pub All {κ} : (A → Type κ) → List A → Type κ
  All P [] = Unit
  All P (x ∷ xs) = P x × All P xs

  -- `x` stands in the list, at the place that the sum says.
  abbrev pub Elem : A → List A → Type ℓ
  Elem x [] = Lift ⊥
  Elem x (y ∷ ys) = (x ≡ y) ⊎ Elem x ys

  pub Elem-last : (x : A) (xs : List A) → Elem x (xs ++ x ∷ [])
  Elem-last x [] = inl refl
  Elem-last x (y ∷ ys) = inr (Elem-last x ys)

  pub All-Elem {κ} : (P : A → Type κ) (x : A) (xs : List A) → Elem x xs → All P xs → P x
  All-Elem P x [] m a = absurd m.lower
  All-Elem P x (y ∷ ys) (inl here) a = subst P (sym here) a.0
  All-Elem P x (y ∷ ys) (inr later) a = All-Elem P x ys later a.1

  pub Elem-append_left : (x : A) (xs ys : List A) → Elem x xs → Elem x (xs ++ ys)
  Elem-append_left x [] ys m = absurd m.lower
  Elem-append_left x (z ∷ xs) ys (inl here) = inl here
  Elem-append_left x (z ∷ xs) ys (inr later) = inr (Elem-append_left x xs ys later)

  pub Elem-append_right : (x : A) (xs ys : List A) → Elem x ys → Elem x (xs ++ ys)
  Elem-append_right x [] ys m = m
  Elem-append_right x (z ∷ xs) ys m = inr (Elem-append_right x xs ys m)

  pub Elem-append : (x : A) (xs ys : List A) → Elem x (xs ++ ys) → Elem x xs ⊎ Elem x ys
  Elem-append x [] ys m = inr m
  Elem-append x (z ∷ xs) ys (inl here) = inl (inl here)
  Elem-append x (z ∷ xs) ys (inr later) = elim (Elem-append x xs ys later) [
    | inl front ↦ inl (inr front)
    | inr back ↦ inr back
  ]

  kept_first :
      (p : A → Bool) (x y : A) (xs : List A) (test : Bool)
      → p y ≡ test
      → (Elem x (keep_if p xs) → Elem x xs × (p x ≡ true))
      → Elem x (if test then y ∷ keep_if p xs else keep_if p xs)
      → Elem x (y ∷ xs) × (p x ≡ true)
  kept_first p x y xs true h rest (inl here) = (inl here, cc)
  kept_first p x y xs true h rest (inr later) = let m = rest later in (inr m.0, m.1)
  kept_first p x y xs false h rest m = let m' = rest m in (inr m'.0, m'.1)

  -- What a filter keeps passes its test, and what passes it is kept.
  pub Elem-keep_if :
      (p : A → Bool) (x : A) (xs : List A) → Elem x (keep_if p xs) → Elem x xs × (p x ≡ true)
  Elem-keep_if p x [] m = absurd m.lower
  Elem-keep_if p x (y ∷ xs) m = kept_first p x y xs (p y) refl (Elem-keep_if p x xs) m

  pub keep_if-Elem :
      (p : A → Bool) (x : A) (xs : List A) → Elem x xs → p x ≡ true → Elem x (keep_if p xs)
  keep_if-Elem p x [] m h = absurd m.lower
  keep_if-Elem p x (y ∷ xs) (inl here) h = rw (sym here) (rw h (inl refl))
  keep_if-Elem p x (y ∷ xs) (inr later) h = elim (Bool-cases (p y)) [
    | inl passes ↦ rw passes (inr (keep_if-Elem p x xs later h))
    | inr fails ↦ rw fails (keep_if-Elem p x xs later h)
  ]

  -- A list without an element is empty.
  pub no_element : (xs : List A) → ((x : A) → Elem x xs → ⊥) → xs ≡ []
  no_element [] h = refl
  no_element (x ∷ xs) h = absurd (h x (inl refl))

  pub length-append : (xs ys : List A) → length (xs ++ ys) ≡ length xs + length ys
  length-append [] ys = omega arith
  length-append (x ∷ xs) ys = omega (arith, length-append xs ys)

  pub get_elem?-set_self :
      (xs : List A) (i : ℕ) (v w : A) → get_elem? xs i ≡ some w → get_elem? (set xs i v) i ≡ some v
  get_elem?-set_self [] i v w h = cc
  get_elem?-set_self (x ∷ xs) zero v w h = refl
  get_elem?-set_self (x ∷ xs) (suc i) v w h = get_elem?-set_self xs i v w h

  pub get_elem?-set_ne :
      (xs : List A) (i j : ℕ) (v : A) → i ≢ j → get_elem? (set xs i v) j ≡ get_elem? xs j
  get_elem?-set_ne [] i j v h = refl
  get_elem?-set_ne (x ∷ xs) zero zero v h = absurd (h refl)
  get_elem?-set_ne (x ∷ xs) zero (suc j) v h = refl
  get_elem?-set_ne (x ∷ xs) (suc i) zero v h = refl
  get_elem?-set_ne (x ∷ xs) (suc i) (suc j) v h = get_elem?-set_ne xs i j v (λ e. h (ap suc e))

  pub All-set {κ} :
      (P : A → Type κ) (xs : List A) (i : ℕ) (v : A) → P v → All P xs → All P (set xs i v)
  All-set P [] i v h a = tt
  All-set P (x ∷ xs) zero v h a = (h, a.1)
  All-set P (x ∷ xs) (suc i) v h a = (a.0, All-set P xs i v h a.1)

  pub All-append {κ} : (P : A → Type κ) (xs ys : List A) → All P xs → All P ys → All P (xs ++ ys)
  All-append P [] ys a b = b
  All-append P (x ∷ xs) ys a b = (a.0, All-append P xs ys a.1 b)

  pub All-get_elem? {κ} :
      (P : A → Type κ) (xs : List A) (i : ℕ) (v : A) → All P xs → get_elem? xs i ≡ some v → P v
  All-get_elem? P [] i v a h = cc
  All-get_elem? P (x ∷ xs) zero v a h = subst P (some-injective x v h) a.0
  All-get_elem? P (x ∷ xs) (suc i) v a h = All-get_elem? P xs i v a.1 h

  pub set-get_elem? : (xs : List A) (i : ℕ) (v : A) → get_elem? xs i ≡ some v → set xs i v ≡ xs
  set-get_elem? [] i v h = refl
  set-get_elem? (x ∷ xs) zero v h = ap (λ y. y ∷ xs) (sym (some-injective x v h))
  set-get_elem? (x ∷ xs) (suc i) v h = ap (λ ys. x ∷ ys) (set-get_elem? xs i v h)

  pub map-set {κ} :
      {B : Type κ} (f : A → B) (xs : List A) (i : ℕ) (v w : A)
      → get_elem? xs i ≡ some v
      → f w ≡ f v
      → map f (set xs i w) ≡ map f xs
  map-set f [] i v w h e = refl
  map-set f (x ∷ xs) zero v w h e = ap (λ y. y ∷ map f xs) (e ∙ ap f (sym (some-injective x v h)))
  map-set f (x ∷ xs) (suc i) v w h e = ap (λ ys. f x ∷ ys) (map-set f xs i v w h e)

  abbrev pub take : ℕ → List A → List A
  take zero xs = []
  take (suc n) [] = []
  take (suc n) (x ∷ xs) = x ∷ take n xs

  abbrev pub drop : ℕ → List A → List A
  drop zero xs = xs
  drop (suc n) [] = []
  drop (suc n) (x ∷ xs) = drop n xs

  pub take-append-drop : (n : ℕ) (xs : List A) → take n xs ++ drop n xs ≡ xs
  take-append-drop zero xs = refl
  take-append-drop (suc n) [] = refl
  take-append-drop (suc n) (x ∷ xs) = rw (take-append-drop n xs)

  pub length-drop : (n : ℕ) (xs : List A) → length (drop n xs) ≡ length xs - n
  length-drop zero xs = omega arith
  length-drop (suc n) [] = omega arith
  length-drop (suc n) (x ∷ xs) = omega (arith, length-drop n xs)

  pub length-take : (n : ℕ) (xs : List A) → length (take n xs) ≡ min n (length xs)
  length-take zero xs = omega arith
  length-take (suc n) [] = omega arith
  length-take (suc n) (x ∷ xs) = omega (arith, length-take n xs)

  pub take_all : (n : ℕ) (xs : List A) → length xs ≤ n → take n xs ≡ xs
  take_all zero [] h = refl
  take_all zero (x ∷ xs) h = absurd (omega arith)
  take_all (suc n) [] h = refl
  take_all (suc n) (x ∷ xs) h = ap (λ ys. x ∷ ys) (take_all n xs (omega arith))

  pub keep_if-All : (p : A → Bool) (xs : List A) → All (λ x. p x ≡ true) xs → keep_if p xs ≡ xs
  keep_if-All p [] a = refl
  keep_if-All p (x ∷ xs) a = rw a.0 (ap (λ ys. x ∷ ys) (keep_if-All p xs a.1))

pub All-map {ℓ κ μ} :
    {A : Type ℓ} {P : A → Type κ} {Q : A → Type μ} (f : (a : A) → P a → Q a) (xs : List A)
    → All P xs
    → All Q xs
All-map f [] a = tt
All-map f (x ∷ xs) a = (f x a.0, All-map f xs a.1)
