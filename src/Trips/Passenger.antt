-- ===== src/Trips/Passenger.antt =====
-- apps/api/src/modules/trips/trips.service.ts: a passenger cancels a trip, and the search for a
-- driver that ends with none. `window` is the cancellation window in minutes of a municipality and a service.
use voyya_backend.Prelude.{
  Result, ok, err, ℕ, String, Bool, true, false, not, Option, none, some, ◌==◌, if◌then◌else◌,
  or_else, find,
}
use voyya_backend.Contracts.TripStatus.{cancelled_by_passenger, can_transition_trip_status}
use voyya_backend.Db.Rows.{TripRequest, Db}
use voyya_backend.Db.Tx.{run_in_tenant, DbError}
use voyya_backend.Trips.Statements.{has_trip_id}
use voyya_backend.Trips.FreeCancellation.{is_free_cancellation}
use voyya_backend.Assignment.TripClosing.{CloseTripOutcome, close_passenger_trip}

pub data CancelError : Type 0 where
  trip_request_not_found not_owner status_not_cancellable : CancelError
  database : DbError → CancelError

pub record TripRequestCancelled : Type 0 where
  pub free_of_charge : Bool
  pub penalty_recorded : Bool
  pub cancelled_at : ℕ
  -- whether the cancellation is announced to the other modules
  pub announced : Bool

abbrev pub cancelled_view : ℕ → Bool → TripRequest → TripRequestCancelled
cancelled_view now announced row = record {
  free_of_charge = not row.penalty_recorded;
  penalty_recorded = row.penalty_recorded;
  cancelled_at = or_else row.finished_at now;
  announced = announced;
}

abbrev pub from_passenger_close :
    ℕ → Result DbError CloseTripOutcome → Result CancelError TripRequestCancelled
from_passenger_close now (err e) = err (database e)
from_passenger_close now (ok (CloseTripOutcome.rejected reason status)) = err status_not_cancellable
from_passenger_close now (ok (CloseTripOutcome.applied row)) = ok (cancelled_view now true row)
from_passenger_close now (ok (CloseTripOutcome.idempotent row)) = ok (cancelled_view now false row)

abbrev pub close_as_passenger :
    String → ℕ → ℕ → ℕ → Bool → Db → Result CancelError TripRequestCancelled × Db
close_as_passenger fresh now k passenger penalty db =
    let (r, db') = run_in_tenant (close_passenger_trip fresh now k passenger penalty) db in
    (from_passenger_close now r, db')

unfoldable pub cancel_trip :
    (ℕ → ℕ → ℕ)
    → String
    → ℕ
    → ℕ
    → ℕ
    → ℕ
    → Option TripRequest
    → Db
    → Result CancelError TripRequestCancelled × Db
cancel_trip window fresh received now k passenger none db = (err trip_request_not_found, db)
cancel_trip window fresh received now k passenger (some trip) db =
    if not (trip.passenger_id == passenger)
    then (err not_owner, db)
    else if not (can_transition_trip_status trip.status cancelled_by_passenger)
    then (err status_not_cancellable, db)
    else close_as_passenger fresh now k passenger
        (not (is_free_cancellation trip (window trip.municipality_id trip.service_type) received))
        db

-- cancel
unfoldable pub cancel :
    (ℕ → ℕ → ℕ) → String → ℕ → ℕ → ℕ → ℕ → Db → Result CancelError TripRequestCancelled × Db
cancel window fresh received now k passenger db =
    cancel_trip window fresh received now k passenger (find (has_trip_id k) db.trips) db
