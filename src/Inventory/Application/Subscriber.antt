-- ===== src/Inventory/Application/Subscriber.antt =====
-- The consumers of the ordering context's messages: application/subscriber.go.
use go_ddd_template.Base.{ℕ, String, true, false, Option, none, some, Result, ok, err, is_empty}
use go_ddd_template.Base.Dict.{lookup}
use go_ddd_template.Shared.Outbox.{Message, object, malformed}
use go_ddd_template.Inventory.Errors.{Error, other_error, is_sentinel, reservation_not_found}
use go_ddd_template.Inventory.Application.{Attempt, Deps, Done}
use go_ddd_template.Inventory.Application.UseCases.{confirm_use_case, release_use_case}

abbrev pub type_confirm_reservation : String
type_confirm_reservation = "ordering.reservation.confirm_requested"

abbrev pub type_order_cancelled : String
type_order_cancelled = "ordering.order.cancelled"

-- The field of the payload by its name as it is spelled; that encoding/json also takes it in other letter
-- case is left out.
unfoldable pub decode_reservation_ref : Message → Result Error String
unfolding lookup
decode_reservation_ref m = elim m.payload [
  | malformed ↦ err other_error
  | object fields ↦ elim (lookup "reservation_ref" fields) [
    | none ↦ err other_error
    | some ref ↦ elim (is_empty ref) [ true ↦ err other_error | false ↦ ok ref ]
  ]
]

abbrev error_of : Result Error Done → Option Error
error_of (ok r) = none
error_of (err e) = some e

-- A missing reservation counts as done.
abbrev pub benign : Result Error Done → Option Error
benign (ok r) = none
benign (err e) = elim (is_sentinel e reservation_not_found) [ true ↦ none | false ↦ some e ]

module _ {T S : Type 0} (deps : Deps T S) (attempts : ℕ → Attempt) where
  unfoldable pub on_confirm_reservation : Message → S → S × Option Error
  unfolding decode_reservation_ref confirm_use_case is_sentinel
  on_confirm_reservation m s = elim (decode_reservation_ref m) [
    | err e ↦ (s, some e)
    | ok ref ↦ let (s', out) = confirm_use_case deps attempts ref s in (s', benign out)
  ]

  unfoldable pub on_order_cancelled : Message → S → S × Option Error
  unfolding decode_reservation_ref release_use_case
  on_order_cancelled m s = elim (decode_reservation_ref m) [
    | err e ↦ (s, some e)
    | ok ref ↦ let (s', out) = release_use_case deps attempts ref s in (s', error_of out)
  ]
