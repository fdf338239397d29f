-- ===== src/Trips/UiState.antt =====
-- apps/api/src/modules/trips/domain/ui-state.ts, and the view of the start code in
-- apps/api/src/modules/trips/trips.service.ts: what a passenger sees of a trip.
use voyya_backend.Prelude.{
  ℕ, String, ◌≡◌, ◌≢◌, ◌↔◌, ◌⊎◌, inl, inr, Bool, true, not, Option, none, [], ◌∷◌, arith,
  if◌then◌else◌, is_none, is_some, Bool-cases,
}
use voyya_backend.Contracts.TripStatus.{
  TripStatus, pending_assignment, assigned, in_progress, completed, cancelled_by_passenger,
  cancelled_by_driver, no_show, expired, includes,
}
use voyya_backend.Db.Rows.{TripRequest}
use voyya_backend.Trips.Soundness.{IsSound}

pub data PassengerUiState : Type 0 where
  calculating_fare searching driver_assigned driver_en_route driver_waiting : PassengerUiState
  trip_in_progress trip_completed trip_no_show trip_cancelled no_driver : PassengerUiState
  out_of_coverage offline : PassengerUiState

unfoldable pub passenger_ui_state : TripStatus → Option ℕ → PassengerUiState
passenger_ui_state pending_assignment arrived_at = searching
passenger_ui_state assigned arrived_at = driver_assigned
passenger_ui_state TripStatus.driver_en_route arrived_at =
    if is_none arrived_at then PassengerUiState.driver_en_route else driver_waiting
passenger_ui_state in_progress arrived_at = trip_in_progress
passenger_ui_state completed arrived_at = trip_completed
passenger_ui_state no_show arrived_at = trip_no_show
passenger_ui_state cancelled_by_passenger arrived_at = trip_cancelled
passenger_ui_state cancelled_by_driver arrived_at = trip_cancelled
passenger_ui_state expired arrived_at = trip_cancelled
passenger_ui_state TripStatus.no_driver arrived_at = PassengerUiState.no_driver

-- apps/api/src/shared/trip-window.ts
abbrev pub is_in_trip_window : TripStatus → Bool
is_in_trip_window status = includes (assigned ∷ TripStatus.driver_en_route ∷ []) status

pub data StartCodeState : Type 0 where
  not_applicable blocked active not_required : StartCodeState

-- startCodeView
unfoldable pub start_code_view : TripRequest → Option String × StartCodeState
start_code_view t =
    if not (is_in_trip_window t.status)
    then (none, not_applicable)
    else if is_some t.start_code_blocked_at
    then (none, blocked)
    else if is_some t.start_code
    then (t.start_code, active)
    else (none, if t.start_code_exempt then not_required else not_applicable)

-- For a sound trip: the passenger sees the code that the row has, if any, and the state of the
-- code is not_applicable exactly outside the window of assigned and driver_en_route.
pub start_code_view_lem :
    (t : TripRequest)
    → IsSound t
    → ((start_code_view t).0 ≡ t.start_code)
      × ((is_in_trip_window t.status ≡ true) ↔ ((start_code_view t).1 ≢ not_applicable))
unfolding start_code_view
start_code_view_lem t s = (
  ground arith,
  (
    λ h e. ground arith,
    λ h. elim (Bool-cases (is_in_trip_window t.status)) [ inl e ↦ e | inr e ↦ absurd (h (rw e)) ],
  ),
)

-- The search screen shows exactly for a pending trip, the waiting screen exactly for a driver on
-- the way with an arrival, and the cancelled screen exactly for a trip that a passenger or a
-- driver cancelled or that expired.
pub passenger_ui_state_lem :
    (status : TripStatus) (arrived_at : Option ℕ)
    → ((passenger_ui_state status arrived_at ≡ searching) ↔ (status ≡ pending_assignment))
      × ((passenger_ui_state status arrived_at ≡ driver_waiting)
          ↔ ((status ≡ TripStatus.driver_en_route) × (is_some arrived_at ≡ true)))
      × ((passenger_ui_state status arrived_at ≡ trip_cancelled) ↔ (
          (status ≡ cancelled_by_passenger) ⊎ (status ≡ cancelled_by_driver) ⊎ (status ≡ expired)))
unfolding passenger_ui_state
passenger_ui_state_lem status arrived_at = (
  (λ h. ground arith, λ h. ground arith),
  (λ h. ground arith, λ h. ground arith),
  (λ h. ground arith, λ h. ground arith),
)
