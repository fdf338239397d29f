-- ===== src/Trips/History.antt =====
-- Whole histories of trips: every call of apps/api/src/modules/trips and
-- apps/api/src/modules/assignment that writes a trip that is there, in any order, on any tables. The
-- creation of a trip is in Trips/ActiveTrips.
pub mod Keeping
use voyya_backend.Prelude.{
  Result, ok, err, ℕ, zero, suc, String, ◌≡◌, refl, subst, inl, inr, Bool, Option, none, some, List,
  [], ◌∷◌, arith, ◌==◌, Bool-cases, find, any,
}
use voyya_backend.Contracts.TripStatus.{cancelled_by_passenger, can_transition_trip_status}
use voyya_backend.Contracts.AssignmentStatus.{AssignmentStatus}
use voyya_backend.Db.Rows.{TripRequest, Db}
use voyya_backend.Db.Tx.{
  Tx, Keeps, done, >>=-Keeps, pure-Keeps, throw-Keeps, run_in_tenant, run_in_tenant-keeps, DbError,
  done-injective,
}
use voyya_backend.Trips.Repository.{TripTransitionOutcome, mark_no_driver_if_unassigned}
use voyya_backend.Trips.Passenger.{cancel, cancel_trip}
use voyya_backend.Trips.Statements.{has_trip_id}
use voyya_backend.Trips.Lifecycle.{
  in_owned_trip, assert_ownership, is_owned, closed_assignment_statuses, get_trip_request_or_throw,
  found_or_throw, with_grace, answer, LifecycleError, TripTransitionResult, drive_to_pickup,
  arrive_at_pickup, mark_started, confirm_cash_collected, complete, declare_no_show, complete_input,
  no_show_input,
}
use voyya_backend.Trips.Soundness.{AllSound}
use voyya_backend.Trips.Soundness.Since.{Since, Since-refl}
use voyya_backend.Trips.Soundness.Repository.{
  mark_en_route-Since, mark_arrived-Since, start_with_code-Since, mark_cash_collected-Since,
  mark_no_driver-Since,
}
use voyya_backend.Assignment.Take.{accept, attempt_take, retry_on_deadlock}
use voyya_backend.Assignment.Cancel.{reject, cancel_by_driver}
use voyya_backend.Assignment.Soundness.{
  get_trip_request-Since, close_trip_in_tx-Since, close_passenger_trip-Since,
}
use voyya_backend.Assignment.Soundness.Drivers.{
  take_trip-Since, reject-Since, cancel_by_driver-Since,
}

-- A call with its arguments; each comes with the value that the start-code trigger would draw.
pub data Call : Type 0 where
  cancels : ℕ → ℕ → ℕ → ℕ → Call
  drives : ℕ → ℕ → ℕ → ℕ → Call
  arrives : ℕ → ℕ → ℕ → ℕ → Call
  starts : ℕ → ℕ → ℕ → ℕ → Option String → Call
  collects : ℕ → ℕ → ℕ → ℕ → Call
  completes : ℕ → ℕ → ℕ → ℕ → Bool → Call
  declares_no_show : ℕ → ℕ → ℕ → ℕ → Call
  takes : (ℕ → Bool) → ℕ → ℕ → ℕ → ℕ → ℕ → Call
  rejects : ℕ → ℕ → ℕ → ℕ → Option String → Call
  gives_back : ℕ → ℕ → ℕ → ℕ → String → Call
  exhausts : ℕ → ℕ → Call

-- What a call leaves of the tables, for a no-show grace and a cancellation window by municipality and
-- service.
unfoldable pub step : (ℕ → ℕ → ℕ) → (ℕ → ℕ → ℕ) → Db → String × Call → Db
step grace window db (fresh, cancels received now k passenger) =
    (cancel window fresh received now k passenger db).1
step grace window db (fresh, drives now k driver company) =
    (drive_to_pickup fresh now k driver company db).1
step grace window db (fresh, arrives now k driver company) =
    (arrive_at_pickup grace now k driver company db).1
step grace window db (fresh, starts now k driver company code) =
    (mark_started fresh now k driver company code db).1
step grace window db (fresh, collects now k driver company) =
    (confirm_cash_collected now k driver company db).1
step grace window db (fresh, completes now k driver company cash) =
    (complete fresh now k driver company cash db).1
step grace window db (fresh, declares_no_show now k driver company) =
    (declare_no_show grace fresh now k driver company db).1
step grace window db (fresh, takes locked clock now k driver company) =
    (accept locked fresh clock now k driver company db).1
step grace window db (fresh, rejects now k driver company reason) =
    (run_in_tenant (reject now k driver company reason) db).1
step grace window db (fresh, gives_back now k driver company reason) =
    (run_in_tenant (cancel_by_driver fresh now k driver company reason) db).1
step grace window db (fresh, exhausts now k) =
    (run_in_tenant (mark_no_driver_if_unassigned fresh now k) db).1

unfoldable pub run : (ℕ → ℕ → ℕ) → (ℕ → ℕ → ℕ) → Db → List (String × Call) → Db
run grace window db [] = db
run grace window db (c ∷ cs) = run grace window (step grace window db c) cs
