-- ===== src/Assignment/Cancel.antt =====
-- apps/api/src/modules/assignment/assignment.service.ts: a driver rejects an offer (`reject`) or
-- gives a trip back (`cancelByDriver`); the transactions; the events that
-- follow are in Assignment/Service.
use voyya_backend.Prelude.{
  ℕ, String, Bool, true, false, not, Option, none, some, ◌==◌, if◌then◌else◌,
}
use voyya_backend.Contracts.TripStatus.{TripStatus, pending_assignment, cancelled_by_driver}
use voyya_backend.Contracts.AssignmentStatus.{notified, accepted, same}
use voyya_backend.Db.Rows.{TripRequest, Assignment}
use voyya_backend.Db.Tx.{Tx, pure, ◌>>=◌}
use voyya_backend.Trips.Statements.{update_watched_trips, reopen_where, reopen_set}
use voyya_backend.Trips.Repository.{get_trip_request}
use voyya_backend.Assignment.Targets.{TripClosingTarget}
use voyya_backend.Assignment.TripClosing.{CloseTripInput, CloseTripOutcome, close_trip_in_tx}
use voyya_backend.Assignment.Statements.{
  get_assignment, mark_rejected, mark_cancelled_by_driver, release_driver,
}

pub data RejectOutcome : Type 0 where
  not_found not_driver invalid_status : RejectOutcome
  -- the trip
  done_with : ℕ → RejectOutcome

unfoldable pub reject_offer : ℕ → ℕ → ℕ → Option String → Option Assignment → Tx RejectOutcome
reject_offer now driver company reason none = pure not_found
reject_offer now driver company reason (some a) =
    if not (a.driver_id == driver)
    then pure not_driver
    else if not (same a.status notified)
    then pure invalid_status
    else ◌>>=◌ (mark_rejected now a.assignment_id company reason)
        (λ _. pure (done_with a.trip_request_id))

-- reject
unfoldable pub reject : ℕ → ℕ → ℕ → ℕ → Option String → Tx RejectOutcome
reject now k driver company reason = do
  a ← get_assignment k company
  reject_offer now driver company reason a

pub data CancelOutcome : Type 0 where
  not_found not_driver invalid_status : CancelOutcome
  -- the trip, the passenger, the trip's status and whether this call changed it
  cancelled : ℕ → ℕ → TripStatus → Bool → CancelOutcome

-- reopenTripRequest
unfoldable pub reopen_trip_request : String → ℕ → ℕ → Tx (Option TripRequest)
reopen_trip_request fresh now k = update_watched_trips fresh (reopen_where k) (reopen_set now)

abbrev pub driver_cancel_input : Assignment → ℕ → String → CloseTripInput
driver_cancel_input a driver reason = record {
  trip_request_id = a.trip_request_id;
  to = TripClosingTarget.cancelled_by_driver;
  driver_id = some driver;
  cash_collected = false;
  penalty_recorded = false;
  cancellation_reason = some reason;
  no_show_grace_min = 0;
}

abbrev pub closed_report : Assignment → ℕ → CloseTripOutcome → CancelOutcome
closed_report a passenger (CloseTripOutcome.applied row) =
    cancelled a.trip_request_id passenger cancelled_by_driver true
closed_report a passenger (CloseTripOutcome.idempotent row) =
    cancelled a.trip_request_id passenger cancelled_by_driver false
closed_report a passenger (CloseTripOutcome.rejected reason status) = invalid_status

abbrev pub reopened_or_close :
    String → ℕ → Assignment → ℕ → ℕ → String → ℕ → Option TripRequest → Tx CancelOutcome
reopened_or_close fresh now a driver company reason passenger (some row) =
    ◌>>=◌ (mark_cancelled_by_driver now a.assignment_id company reason) λ _.
      ◌>>=◌ (release_driver driver company)
        λ _. pure (cancelled a.trip_request_id passenger pending_assignment true)
reopened_or_close fresh now a driver company reason passenger none =
    ◌>>=◌ (close_trip_in_tx fresh now (some company) (driver_cancel_input a driver reason))
      λ closed. pure (closed_report a passenger closed)

abbrev pub give_back :
    String → ℕ → Assignment → ℕ → ℕ → String → Option TripRequest → Tx CancelOutcome
give_back fresh now a driver company reason none = pure not_found
give_back fresh now a driver company reason (some trip) =
    ◌>>=◌ (reopen_trip_request fresh now a.trip_request_id)
      (reopened_or_close fresh now a driver company reason trip.passenger_id)

unfoldable pub cancel_accepted : String → ℕ → ℕ → ℕ → String → Option Assignment → Tx CancelOutcome
cancel_accepted fresh now driver company reason none = pure not_found
cancel_accepted fresh now driver company reason (some a) =
    if not (a.driver_id == driver)
    then pure not_driver
    else if not (same a.status accepted)
    then pure invalid_status
    else ◌>>=◌ (get_trip_request a.trip_request_id) (give_back fresh now a driver company reason)

-- cancelByDriver
unfoldable pub cancel_by_driver : String → ℕ → ℕ → ℕ → ℕ → String → Tx CancelOutcome
cancel_by_driver fresh now k driver company reason = do
  a ← get_assignment k company
  cancel_accepted fresh now driver company reason a
