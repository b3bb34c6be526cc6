-- ===== src/Inventory/ItemTests.antt =====
-- Runs of the inventory context's theorems at concrete stock items and requests.
use go_ddd_template.Base.{
  ◌+◌, ◌≡◌, refl, String, true, none, List, [], ◌∷◌, arith, keep_if, ◌%◌, int_mod, Clock, GoInt,
  is_negative,
}
use go_ddd_template.Base.Dict.{lookup, insert}
use go_ddd_template.Inventory.Values.{Quantity, ReservationRef}
use go_ddd_template.Inventory.Reservation.{Reservation, pending}
use go_ddd_template.Inventory.StockItem.{
  StockItem, replenish, reserve, confirm, release, reap_expired, reserved,
}
use go_ddd_template.Inventory.StockItem.Invariant.{IsValid}
use go_ddd_template.Inventory.StockItem.Run.{
  Call, replenishes, reserves, confirms, releases, reaps, run, on_hand-run, run-IsValid,
}
use go_ddd_template.Inventory.StockItem.Reap.{
  goes, stays, releases as releases_of, reap_expired-swept,
}
use go_ddd_template.Inventory.StockItem.Totals.{total}
use go_ddd_template.Inventory.StockItem.Commands.{release-reserve, replenish_overflows}

abbrev pub quantity : GoInt → Quantity
quantity n = record { value = n }

abbrev pub ref_of : String → ReservationRef
ref_of s = record { value = s }

abbrev pub noon : Clock
noon i = 100

abbrev pub held_r0 : Reservation
held_r0 = record { ref = ref_of "r0"; qty = quantity 2; status = pending; expires_at = 90 }

-- Five free, and two of the reference r0, which has run out by noon.
abbrev pub bolts : StockItem
bolts = record {
  id = "item-1";
  sku = record { value = "BOLT" };
  available = quantity 5;
  reservations = ("r0", held_r0) ∷ [];
  version = 1;
  events = [];
}

pub bolts-IsValid : IsValid bolts
unfolding lookup
bolts-IsValid = record {
  distinct = (refl, tt);
  held = ((refl, refl, omega arith), tt);
  bounded = omega arith;
}

abbrev busy_day : List (Clock × Call)
busy_day =
    (noon, replenishes (quantity 10))
    ∷ (noon, reserves (ref_of "r1") (quantity 4) 50)
    ∷ (noon, confirms (ref_of "r1"))
    ∷ (noon, releases (ref_of "r1"))
    ∷ (noon, reaps 100)
    ∷ []

run-IsValid_example : IsValid (run bolts busy_day)
run-IsValid_example =
    run-IsValid bolts busy_day bolts-IsValid (omega arith, (omega arith, (tt, (tt, (tt, tt)))))
      (omega arith)

on_hand-run_example :
    (run bolts busy_day).available.value + (reserved (run bolts busy_day)).value
    ≡ 5 + (reserved bolts).value + 10
on_hand-run_example =
    on_hand-run bolts busy_day bolts-IsValid (omega arith, (omega arith, (tt, (tt, (tt, tt)))))
      (omega arith)

release-reserve_example :
    ((release noon (ref_of "r1") (reserve noon (ref_of "r1") (quantity 3) 50 bolts).0).0.available
      ≡ bolts.available)
    × ((release noon
          (ref_of "r1")
          (reserve noon (ref_of "r1") (quantity 3) 50 bolts).0).0.reservations
        ≡ bolts.reservations)
    × ((release noon (ref_of "r1") (reserve noon (ref_of "r1") (quantity 3) 50 bolts).0).1 ≡ none)
unfolding reserve lookup
release-reserve_example =
    release-reserve noon (ref_of "r1") (quantity 3) 50 bolts bolts-IsValid (omega arith) noon refl
      refl

confirmed-IsValid : IsValid (confirm noon (ref_of "r0") bolts).0
unfolding confirm lookup insert
confirmed-IsValid = record {
  distinct = (refl, tt);
  held = ((refl, refl, omega arith), tt);
  bounded = omega arith;
}

replenish_overflows_example :
    (is_negative (replenish noon (quantity 9_223_372_036_854_775_803) bolts).0.available.value
      ≡ true)
    × ((replenish noon (quantity 9_223_372_036_854_775_803) bolts).1 ≡ none)
replenish_overflows_example =
    replenish_overflows noon (quantity 9_223_372_036_854_775_803) bolts bolts-IsValid (omega arith)
      (omega arith)

reap_expired-swept_example : reap_expired 100 bolts ≡ (
  record bolts {
    available = record { value = (5 + total (keep_if (goes 100) bolts.reservations)) % int_mod };
    reservations = keep_if (stays 100) bolts.reservations;
  },
  releases_of 100 "BOLT" 5 (keep_if (goes 100) bolts.reservations),
)
reap_expired-swept_example = reap_expired-swept 100 bolts (omega arith) bolts-IsValid.distinct
