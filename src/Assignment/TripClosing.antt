-- ===== src/Assignment/TripClosing.antt =====
-- apps/api/src/modules/assignment/trip-closing.service.ts: closing a trip, and what is reported of
-- a trip that cannot be closed.
pub mod Laws
pub mod Rules
use voyya_backend.Prelude.{
  ℕ, ◌+◌, ◌-◌, ◌*◌, ◌/◌, String, Bool, false, ◌&&◌, Option, none, some, ◌==◌, if◌then◌else◌,
  is_none, find,
}
use voyya_backend.Contracts.TripStatus.{TripStatus, expired, no_show, same, includes}
use voyya_backend.Db.Rows.{TripRequest}
use voyya_backend.Db.Tx.{Tx, pure, ◌>>=◌, ◌>>◌}
use voyya_backend.Trips.Statements.{update_watched_trips, has_trip_id, close_where, close_set}
use voyya_backend.Trips.Repository.{get_trip_request}
use voyya_backend.Assignment.Targets.{
  TripClosingTarget, target_status, assignment_status_by_target, source_statuses_for,
}
use voyya_backend.Assignment.Statements.{close_assignments_for_trip, release_driver}

pub record CloseTripInput : Type 0 where
  pub trip_request_id : ℕ
  pub to : TripClosingTarget
  pub driver_id : Option ℕ
  pub cash_collected : Bool
  pub penalty_recorded : Bool
  pub cancellation_reason : Option String
  pub no_show_grace_min : ℕ

pub data CloseTripRejectionReason : Type 0 where
  invalid_status not_arrived : CloseTripRejectionReason
  -- with the seconds that remain
  grace_pending : ℕ → CloseTripRejectionReason

-- CloseTripRow is what the trip's row shows of its closing.
pub data CloseTripOutcome : Type 0 where
  applied : TripRequest → CloseTripOutcome
  idempotent : TripRequest → CloseTripOutcome
  rejected : CloseTripRejectionReason → TripStatus → CloseTripOutcome

-- getNoShowRemainingSeconds: the seconds to the end of the grace, rounded up.
abbrev pub no_show_remaining_seconds : ℕ → ℕ → ℕ → ℕ
no_show_remaining_seconds now grace arrived = (arrived + grace * 60000 - now + 999) / 1000

-- resolveRejection
abbrev pub no_show_rejection : ℕ → ℕ → TripStatus → Option ℕ → CloseTripOutcome
no_show_rejection now grace status none = rejected not_arrived status
no_show_rejection now grace status (some arrived) =
    rejected (grace_pending (no_show_remaining_seconds now grace arrived)) status

unfoldable pub resolve_rejection : ℕ → CloseTripInput → Option TripRequest → CloseTripOutcome
resolve_rejection now input none = rejected invalid_status expired
resolve_rejection now input (some current) =
    let to = target_status input.to in
    if same current.status to
    then idempotent current
    else if same to no_show && includes (source_statuses_for to) current.status
    then no_show_rejection now input.no_show_grace_min current.status current.arrived_at
    else rejected invalid_status current.status

-- closeTripRequest
unfoldable pub close_trip_request : String → ℕ → Option ℕ → CloseTripInput → Tx (Option TripRequest)
close_trip_request fresh now company input =
    let to = target_status input.to in
    update_watched_trips fresh
      (close_where now input.trip_request_id to (source_statuses_for to) input.no_show_grace_min
        (is_none company))
      (close_set now to input.cash_collected input.penalty_recorded)

unfoldable pub resolution : ℕ → CloseTripInput → Option TripRequest → Tx CloseTripOutcome
resolution now input (some row) = pure (applied row)
resolution now input none = do
  current ← get_trip_request input.trip_request_id
  pure (resolve_rejection now input current)

abbrev pub release_closed : ℕ → Option ℕ → Tx (Unit {0})
release_closed company none = pure tt
release_closed company (some driver) = release_driver driver company

unfoldable pub settle_assignments : ℕ → Option ℕ → CloseTripInput → Tx (Unit {0})
settle_assignments now none input = pure tt
settle_assignments now (some company) input = do
  closed ←
      close_assignments_for_trip now input.trip_request_id company
        (assignment_status_by_target input.to) input.cancellation_reason input.driver_id
  release_closed company closed

abbrev pub after_resolution : ℕ → Option ℕ → CloseTripInput → CloseTripOutcome → Tx CloseTripOutcome
after_resolution now company input (rejected reason status) = pure (rejected reason status)
after_resolution now company input (applied row) = do
  settle_assignments now company input
  pure (applied row)
after_resolution now company input (idempotent row) = do
  settle_assignments now company input
  pure (idempotent row)

unfoldable pub close_trip_in_tx : String → ℕ → Option ℕ → CloseTripInput → Tx CloseTripOutcome
close_trip_in_tx fresh now company input = do
  row ← close_trip_request fresh now company input
  outcome ← resolution now input row
  after_resolution now company input outcome

-- lockTripForPassenger
abbrev pub is_trip_of : ℕ → ℕ → TripRequest → Bool
is_trip_of k passenger r = has_trip_id k r && r.passenger_id == passenger

abbrev pub cancel_input : ℕ → Bool → CloseTripInput
cancel_input k penalty = record {
  trip_request_id = k;
  to = TripClosingTarget.cancelled_by_passenger;
  driver_id = none;
  cash_collected = false;
  penalty_recorded = penalty;
  cancellation_reason = none;
  no_show_grace_min = 0;
}

abbrev pub close_locked : String → ℕ → ℕ → Bool → Option TripRequest → Tx CloseTripOutcome
close_locked fresh now k penalty none = pure (rejected invalid_status expired)
close_locked fresh now k penalty (some locked) =
    close_trip_in_tx fresh now locked.company_id (cancel_input k penalty)

-- closePassengerTrip
unfoldable pub close_passenger_trip : String → ℕ → ℕ → ℕ → Bool → Tx CloseTripOutcome
close_passenger_trip fresh now k passenger penalty db =
    close_locked fresh now k penalty (find (is_trip_of k passenger) db.trips) db
