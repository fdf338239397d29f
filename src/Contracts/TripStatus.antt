-- ===== src/Contracts/TripStatus.antt =====
-- packages/shared/src/contracts/trips.ts (the status of a trip request and its transition table)
-- and packages/shared/src/domain/trip-state-machine.ts (terminal and active statuses).
use voyya_backend.Prelude.{◌≡◌, refl, Bool, true, false, ◌||◌, List, [], ◌∷◌, arith}

pub data TripStatus : Type 0 where
  pending_assignment assigned driver_en_route in_progress completed : TripStatus
  cancelled_by_passenger cancelled_by_driver no_driver no_show expired : TripStatus

-- `===` between two statuses.
abbrev pub same : TripStatus → TripStatus → Bool
same pending_assignment pending_assignment = true
same assigned assigned = true
same driver_en_route driver_en_route = true
same in_progress in_progress = true
same completed completed = true
same cancelled_by_passenger cancelled_by_passenger = true
same cancelled_by_driver cancelled_by_driver = true
same no_driver no_driver = true
same no_show no_show = true
same expired expired = true
same _ _ = false

-- `array.includes(status)`.
abbrev pub includes : List TripStatus → TripStatus → Bool
includes [] s = false
includes (x ∷ xs) s = same x s || includes xs s

-- TRIP_STATUS_TRANSITIONS
abbrev pub trip_status_transitions : TripStatus → List TripStatus
trip_status_transitions pending_assignment =
    assigned ∷ no_driver ∷ cancelled_by_passenger ∷ expired ∷ []
trip_status_transitions assigned =
    driver_en_route ∷ pending_assignment ∷ cancelled_by_passenger ∷ cancelled_by_driver ∷ []
trip_status_transitions driver_en_route =
    in_progress ∷ cancelled_by_passenger ∷ cancelled_by_driver ∷ no_show ∷ []
trip_status_transitions in_progress = completed ∷ []
trip_status_transitions _ = []

abbrev pub can_transition_trip_status : TripStatus → TripStatus → Bool
can_transition_trip_status from to = includes (trip_status_transitions from) to

-- TERMINAL_TRIP_STATUSES
abbrev pub terminal_trip_statuses : List TripStatus
terminal_trip_statuses =
    completed ∷ cancelled_by_passenger ∷ cancelled_by_driver ∷ no_driver ∷ no_show ∷ expired ∷ []

-- ACTIVE_TRIP_STATUSES
abbrev pub active_trip_statuses : List TripStatus
active_trip_statuses = pending_assignment ∷ assigned ∷ driver_en_route ∷ in_progress ∷ []

abbrev pub is_terminal_trip_status : TripStatus → Bool
is_terminal_trip_status status = includes terminal_trip_statuses status

abbrev pub is_active_trip_status : TripStatus → Bool
is_active_trip_status status = includes active_trip_statuses status

pub same→eq : (a b : TripStatus) → same a b ≡ true → a ≡ b
same→eq pending_assignment b h = ground arith
same→eq _ b h = ground arith

pub same_refl : (a : TripStatus) → same a a ≡ true
same_refl pending_assignment = refl
same_refl _ = refl
