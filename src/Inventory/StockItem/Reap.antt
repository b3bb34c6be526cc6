-- ===== src/Inventory/StockItem/Reap.antt =====
-- ReapExpired: which reservations go, which stay, and where their stock goes.
use go_ddd_template.Base.{
  ℕ, ◌+◌, ◌%◌, ◌<◌, ◌≡◌, refl, sym, ◌∙◌, ap, subst, String, Bool, true, false, not, List, [], ◌∷◌,
  ◌++◌, All, arith, int_mod, Time, keep_if, append-nil, append_assoc, Bool-cases, inl, inr,
}
use go_ddd_template.Base.Dict.{
  Dict, Distinct, lookup, delete, delete-Distinct, delete-middle, kept, lookup-keep_if,
  keep_if-Distinct,
}
use go_ddd_template.Inventory.Values.{add}
use go_ddd_template.Inventory.Reservation.{Reservation}
use go_ddd_template.Inventory.Event.{DomainEvent, stock_released}
use go_ddd_template.Inventory.StockItem.{
  StockItem, is_reapable, reap_entry, reap_loop, reap_expired,
}
use go_ddd_template.Inventory.StockItem.Totals.{total}
use go_ddd_template.Inventory.StockItem.Invariant.{IsHeld, IsValid, stock}

abbrev pub stays : Time → String × Reservation → Bool
stays now (key, r) = not (is_reapable now r)

abbrev pub goes : Time → String × Reservation → Bool
goes now (key, r) = is_reapable now r

-- The events of a sweep over entries, from the free stock before it.
abbrev pub releases : Time → String → ℕ → Dict Reservation → List DomainEvent
releases now sku available [] = []
releases now sku available ((key, r) ∷ rest) =
    let available' = (available + r.qty.value) % int_mod in
    stock_released sku r.ref.value r.qty.value available' now ∷ releases now sku available' rest

-- The state after a sweep over entries that stand in the map behind `front`.
abbrev swept : Time → StockItem → Dict Reservation → Dict Reservation → StockItem
swept now s front rest = record s {
  available = record { value = (s.available.value + total (keep_if (goes now) rest)) % int_mod };
  reservations = front ++ keep_if (stays now) rest;
}

abbrev released_item : StockItem → String → Reservation → StockItem
released_item s k r = record s {
  available = add s.available r.qty;
  reservations = delete k s.reservations;
}

abbrev release_event : Time → StockItem → Reservation → DomainEvent
release_event now s r =
    stock_released s.sku.value r.ref.value r.qty.value (add s.available r.qty).value now

module _ (now : Time) (s : StockItem) (ev : List DomainEvent) (k : String) (r : Reservation) where
  reap_entry_goes :
      is_reapable now r ≡ true
      → reap_entry now (k, r) (s, ev) ≡ (released_item s k r, ev ++ release_event now s r ∷ [])
  unfolding reap_entry
  reap_entry_goes h = ground arith

  reap_entry_stays : is_reapable now r ≡ false → reap_entry now (k, r) (s, ev) ≡ (s, ev)
  unfolding reap_entry
  reap_entry_stays h = ground arith

reap_loop-swept :
    (now : Time) (s : StockItem) (ev : List DomainEvent) (front rest : Dict Reservation)
    → s.available.value < int_mod
    → s.reservations ≡ front ++ rest
    → Distinct (front ++ rest)
    → reap_loop now rest (s, ev) ≡ (
      swept now s front rest,
      ev ++ releases now s.sku.value s.available.value (keep_if (goes now) rest),
    )
unfolding reap_loop
reap_loop-swept now s ev front [] h e d = ground (arith, append-nil ev)
reap_loop-swept now s ev front ((k, r) ∷ rest) h e d = elim (Bool-cases (is_reapable now r)) [
  | inl y ↦ rw (reap_entry_goes now s ev k r y) (
      reap_loop-swept now (released_item s k r) (ev ++ release_event now s r ∷ []) front rest
        (unfold add in omega arith) (ap (delete k) e ∙ delete-middle k r front rest d)
        (subst Distinct (delete-middle k r front rest d) (delete-Distinct k _ d))
      ∙ (unfold add in
          rw y (
            ground (
              arith,
              append_assoc ev (release_event now s r ∷ []) (
                  releases now s.sku.value (add s.available r.qty).value (keep_if (goes now) rest)),
            ))))
  | inr n ↦ rw (reap_entry_stays now s ev k r n) (
      reap_loop-swept now s ev (front ++ (k, r) ∷ []) rest h
        (e ∙ sym (append_assoc front ((k, r) ∷ []) rest))
        (subst Distinct (sym (append_assoc front ((k, r) ∷ []) rest)) d)
      ∙ rw n (rw (append_assoc front ((k, r) ∷ []) (keep_if (stays now) rest))))
]

-- The whole sweep of an item without repeated keys, its free stock a 64-bit pattern: the reapable
-- reservations go, the others stay as they are and in their order, the stock of those that go is
-- free again modulo 2 ^ 64, and each of them has one event, in their order.
pub reap_expired-swept :
    (now : Time) (s : StockItem)
    → s.available.value < int_mod
    → Distinct s.reservations
    → reap_expired now s ≡ (
      record s {
        available = record {
          value = (s.available.value + total (keep_if (goes now) s.reservations)) % int_mod;
        };
        reservations = keep_if (stays now) s.reservations;
      },
      releases now s.sku.value s.available.value (keep_if (goes now) s.reservations),
    )
unfolding reap_expired
reap_expired-swept now s h d = reap_loop-swept now s [] [] s.reservations h refl d

total-keep_if :
    (now : Time) (m : Dict Reservation)
    → total (keep_if (stays now) m) + total (keep_if (goes now) m) ≡ total m
total-keep_if now [] = omega arith
total-keep_if now ((k, r) ∷ m) = ground (arith, total-keep_if now m)

keep_if-IsHeld :
    (now : Time) (m : Dict Reservation) → All IsHeld m → All IsHeld (keep_if (stays now) m)
keep_if-IsHeld now [] a = tt
keep_if-IsHeld now ((k, r) ∷ m) a = ground (arith, keep_if-IsHeld now m a.1)

module _ (now : Time) (s : StockItem) (v : IsValid s) where
  pub stock-reap_expired : stock (reap_expired now s).0 ≡ stock s
  stock-reap_expired =
      rw (reap_expired-swept now s (omega (arith, v.bounded)) v.distinct)
        (omega (arith, v.bounded, total-keep_if now s.reservations))

  pub reap_expired-IsValid : IsValid (reap_expired now s).0
  reap_expired-IsValid =
      rw (reap_expired-swept now s (omega (arith, v.bounded)) v.distinct) (record {
        distinct = keep_if-Distinct (stays now) s.reservations v.distinct;
        held = keep_if-IsHeld now s.reservations v.held;
        bounded = omega (arith, v.bounded, total-keep_if now s.reservations);
      })

  -- What a sweep leaves under each reference.
  pub lookup-reap_expired :
      (key : String)
      → lookup key (reap_expired now s).0.reservations
        ≡ kept (stays now) key (lookup key s.reservations)
  lookup-reap_expired key =
      rw (reap_expired-swept now s (omega (arith, v.bounded)) v.distinct)
        (lookup-keep_if (stays now) key s.reservations v.distinct)
