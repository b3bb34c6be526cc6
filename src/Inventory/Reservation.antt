-- ===== src/Inventory/Reservation.antt =====
-- Reservations: domain/reservation.go.
use go_ddd_template.Base.{ℕ, String, Bool, true, false, not, ◌&&◌, Time, is_zero_time, before}
use go_ddd_template.Inventory.Values.{Quantity, ReservationRef}

-- An int; `other` stands for the values that the program never makes.
pub data ReservationStatus : Type 0 where
  pending confirmed : ReservationStatus
  other : ℕ → ReservationStatus

unfoldable pub status_string : ReservationStatus → String
status_string pending = "pending"
status_string confirmed = "confirmed"
status_string (other n) = "unknown"

abbrev pub is_pending : ReservationStatus → Bool
is_pending pending = true
is_pending confirmed = false
is_pending (other n) = false

abbrev pub is_confirmed : ReservationStatus → Bool
is_confirmed pending = false
is_confirmed confirmed = true
is_confirmed (other n) = false

pub record Reservation : Type 0 where
  pub ref : ReservationRef
  pub qty : Quantity
  pub status : ReservationStatus
  pub expires_at : Time

unfoldable pub reconstitute_reservation :
    ReservationRef → Quantity → ReservationStatus → Time → Reservation
reconstitute_reservation ref qty status expires_at = record {
  ref = ref;
  qty = qty;
  status = status;
  expires_at = expires_at;
}

-- The caller tests the status.
unfoldable pub is_expired : Reservation → Time → Bool
is_expired r now = not (is_zero_time r.expires_at) && not (before now r.expires_at)
