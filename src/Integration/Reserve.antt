-- ===== src/Integration/Reserve.antt =====
-- Reserving and releasing stock from the ordering context: aclhttp.go over the inventory's
-- internalhttp and use cases, and what the ordering's httpapi answers to a refusal.
use go_ddd_template.Base.{
  ℕ, ltb, String, Bool, true, false, ◌||◌, Option, none, some, List, [], ◌∷◌, map, ◌≡◌, refl, ap,
  ◌∙◌, Time, Duration, Result, ok, err, ◌>>=◌, arith, if◌then◌else◌, Bool-cases, inl, inr,
}
use go_ddd_template.Shared.Outbox.{Router}
use go_ddd_template.Shared.Problem.Response.{problem_type_of}
use go_ddd_template.Inventory.Errors as Inv
use go_ddd_template.Inventory.Application.{Attempt, Deps, Done}
use go_ddd_template.Inventory.Application.Commands as Commands
use go_ddd_template.Inventory.Application.UseCases.{reserve_use_case, release_use_case}
use go_ddd_template.Inventory.InternalHttp as Server
use go_ddd_template.Ordering.Errors.{
  Error, is_port_error, reservation_rejected, reservation_unavailable, problem_response,
  client_wrapped,
}
use go_ddd_template.Ordering.Ports
use go_ddd_template.Ordering.Http.{new_error}
use go_ddd_template.Ordering.InventoryClient as Client
use go_ddd_template.Integration.{client, received, sent_line}

-- The errors that the inventory names: each sentinel of its domain, the conflict, and ErrNoRoute.
abbrev pub is_named : Inv.Error → Bool
is_named e =
    Inv.is_sentinel e Inv.stock_item_not_found
    || Inv.is_sentinel e Inv.invalid_sku
    || Inv.is_sentinel e Inv.invalid_quantity
    || Inv.is_sentinel e Inv.invalid_reservation_ref
    || Inv.is_sentinel e Inv.insufficient_stock
    || Inv.is_sentinel e Inv.reservation_not_found
    || Inv.is_conflict e
    || Inv.is_no_route e

-- What the ordering context is told of an outcome of the inventory: nothing of a success; of a
-- failure, that it is rejected, and unavailable too where the error is not a named one.
abbrev pub Told : Result Inv.Error Done → Option Error → Type 0
Told (ok d) none = Unit
Told (ok d) (some e) = ⊥
Told (err e) none = ⊥
Told (err e) (some f) =
    (is_port_error f reservation_rejected ≡ true)
    × (is_port_error f reservation_unavailable ≡ (if is_named e then false else true))

-- The status is below 500 exactly for a named error.
server_status : (e : Inv.Error) → ltb (Server.new_error e).status_code 500 ≡ is_named e
unfolding Server.new_error
server_status e = ground arith

Told-translate :
    (e : Inv.Error)
    → Told (err e) (
        some
          (Client.translate (client_wrapped (problem_response (Server.new_error e).status_code))))
unfolding Client.translate is_port_error
Told-translate e = (ground (arith, server_status e), ground (arith, server_status e))

-- The line that the inventory is asked for.
abbrev pub inventory_line : Ports.ReserveLine → Commands.ReserveLine
inventory_line l = record { sku = l.sku; quantity = l.qty }

sent_lines :
    (lines : List Ports.ReserveLine)
    → Server.to_reserve_lines (map sent_line (Client.to_client_lines lines))
      ≡ map inventory_line lines
unfolding Server.to_reserve_lines Client.to_client_lines
sent_lines [] = refl
sent_lines (l ∷ lines) = ap (λ ls. inventory_line l ∷ ls) (sent_lines lines)

module _ {T S : Type 0} (wire : Time → Time) (deps : Deps T S) (attempts : ℕ → Attempt)
    (ttl : Duration) (router : Router Inv.Error S) where
  -- An outcome of a use case, as the handler and the client hand it on.
  Told-received :
      (status : String) (out : Result Inv.Error Done)
      → Told out (Client.translated (received (out >>= λ r. ok (record { status = status }))))
  Told-received status (ok d) = tt
  Told-received status (err e) = Told-translate e

  -- Over a call that the inventory's handler answers, the ordering context's Reserve leaves the
  -- inventory in the state in which its Reserve use case leaves it for the same reference and
  -- lines. It returns nil exactly where the use case does; an error of the use case becomes
  -- ErrReservationRejected, and ErrReservationUnavailable too exactly where it is none of the
  -- errors that the inventory names.
  pub reserve-reserve_use_case :
      (ref : String) (lines : List Ports.ReserveLine) (s : S)
      → let use_case =
          reserve_use_case deps ttl attempts
            (record { ref = ref; lines = map inventory_line lines })
            s in
        let asked = Client.reserve (client wire deps attempts ttl router) ref lines s in
        (asked.0 ≡ use_case.0) × Told use_case.1 asked.1
  unfolding Client.reserve Server.reserve_stock
  reserve-reserve_use_case ref lines s = rw (sent_lines lines) (
    refl,
    Told-received "reserved"
        (reserve_use_case deps ttl attempts (record { ref = ref; lines = map inventory_line lines })
          s).1,
  )

  -- Over a call that the inventory's handler answers, the ordering context's Release leaves the
  -- inventory in the state in which its Release use case leaves it, and it returns nil exactly
  -- where the use case does; an error becomes ErrReservationRejected, and ErrReservationUnavailable
  -- too exactly where it is none of the errors that the inventory names.
  pub release-release_use_case :
      (ref : String) (s : S)
      → let use_case = release_use_case deps attempts ref s in
        let asked = Client.release (client wire deps attempts ttl router) ref s in
        (asked.0 ≡ use_case.0) × Told use_case.1 asked.1
  unfolding Client.release Server.release_reservation
  release-release_use_case ref s =
      (refl, Told-received "released" (release_use_case deps attempts ref s).1)

-- The status and the type of the answer to an order whose stock the inventory refuses.
abbrev pub refusal : Bool → ℕ × String
refusal true = (409, problem_type_of "reservation-rejected")
refusal false = (503, problem_type_of "service-unavailable")

-- The status and the type of the ordering context's answer to a problem of the inventory's.
abbrev answer_to : ℕ → ℕ × String
answer_to status =
    let answer = new_error (Client.translate (client_wrapped (problem_response status))) in
    (answer.status_code, answer.response.type_uri)

answer_to_status : (status : ℕ) → answer_to status ≡ refusal (ltb status 500)
unfolding Client.translate new_error
answer_to_status status = elim (Bool-cases (ltb status 500)) [ inl y ↦ rw y | inr n ↦ rw n ]

-- An error of the inventory, answered by its internal HTTP adapter, translated by the ordering
-- context's reserver and answered by the ordering context's HTTP adapter, gives the status 409 and
-- the type reservation-rejected where it is one of the errors that the inventory names, and 503 and
-- service-unavailable for every other error.
pub refused_order :
    (e : Inv.Error)
    → let answer =
        new_error
          (Client.translate (client_wrapped (problem_response (Server.new_error e).status_code))) in
      (answer.status_code, answer.response.type_uri) ≡ refusal (is_named e)
refused_order e = answer_to_status (Server.new_error e).status_code ∙ ap refusal (server_status e)
