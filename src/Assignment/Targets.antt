-- ===== src/Assignment/Targets.antt =====
-- apps/api/src/modules/assignment/trip-closing.service.ts: how a trip may be closed, and from where.
use voyya_backend.Prelude.{◌≡◌, List, [], ◌∷◌, arith, filter}
use voyya_backend.Contracts.TripStatus.{
  TripStatus, pending_assignment, assigned, driver_en_route, in_progress, no_driver, expired,
  includes, trip_status_transitions, can_transition_trip_status,
}
use voyya_backend.Contracts.AssignmentStatus.{AssignmentStatus}

pub data TripClosingTarget : Type 0 where
  completed no_show cancelled_by_passenger cancelled_by_driver : TripClosingTarget

-- The status that a target stands for.
abbrev pub target_status : TripClosingTarget → TripStatus
target_status completed = TripStatus.completed
target_status no_show = TripStatus.no_show
target_status cancelled_by_passenger = TripStatus.cancelled_by_passenger
target_status cancelled_by_driver = TripStatus.cancelled_by_driver

-- ASSIGNMENT_STATUS_BY_TARGET
abbrev pub assignment_status_by_target : TripClosingTarget → AssignmentStatus
assignment_status_by_target completed = AssignmentStatus.completed
assignment_status_by_target no_show = AssignmentStatus.completed
assignment_status_by_target cancelled_by_passenger = AssignmentStatus.cancelled
assignment_status_by_target cancelled_by_driver = AssignmentStatus.cancelled

-- Object.keys(TRIP_STATUS_TRANSITIONS)
abbrev pub trip_statuses : List TripStatus
trip_statuses =
    pending_assignment ∷ assigned ∷ driver_en_route ∷ in_progress ∷ TripStatus.completed
    ∷ TripStatus.cancelled_by_passenger ∷ TripStatus.cancelled_by_driver ∷ no_driver
    ∷ TripStatus.no_show ∷ expired ∷ []

abbrev pub source_statuses_for : TripStatus → List TripStatus
source_statuses_for to = filter (λ from. includes (trip_status_transitions from) to) trip_statuses

-- The sources that sourceStatusesFor computes for a status include exactly the statuses that
-- canTransitionTripStatus lets go there.
pub includes-source_statuses_for :
    (to from : TripStatus)
    → includes (source_statuses_for to) from ≡ can_transition_trip_status from to
includes-source_statuses_for pending_assignment from = ground arith
includes-source_statuses_for _ from = ground arith
