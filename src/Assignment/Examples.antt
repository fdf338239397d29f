-- ===== src/Assignment/Examples.antt =====
-- The assignment module's theorems on the sample tables.
use voyya_backend.Prelude.{
  ℕ, ◌+◌, ◌*◌, ◌≤◌, ◌≡◌, refl, ◌≢◌, ◌⊎◌, true, false, none, some, arith, find,
}
use voyya_backend.Prelude.Int.{sub_ℕ}
use voyya_backend.Samples.{
  arrived_trip, moving_trip, second_offer, sample_db, Holds-arrived_trip, Holds-moving_trip,
}
use voyya_backend.Contracts.TripStatus.{TripStatus, driver_en_route, in_progress}
use voyya_backend.Contracts.AssignmentStatus.{notified}
use voyya_backend.Db.Rows.{TripRequest, Assignment, Db}
use voyya_backend.Db.Tx.{Outcome, done, thrown}
use voyya_backend.Db.StartCodeTrigger.{trigger_raises, trigger_row}
use voyya_backend.Trips.Single.{Holds}
use voyya_backend.Trips.Statements.{update_watched_trips}
use voyya_backend.Trips.Repository.{get_trip_request}
use voyya_backend.Assignment.Targets.{TripClosingTarget}
use voyya_backend.Assignment.Statements.{
  is_offer, get_assignment, get_current_commission, mark_trip_request_assigned, take_driver,
  update_drivers, mark_assignment_accepted, update_assignments, close_assignments_for_trip,
  release_driver,
}
use voyya_backend.Assignment.Take.{AcceptOutcome, take_trip, take_offer}
use voyya_backend.Assignment.Take.Effect.{is_accepted_outcome, Taken, take_trip_effect}
use voyya_backend.Assignment.Take.Single.{taken_once}
use voyya_backend.Assignment.TripClosing.{
  CloseTripInput, applied, idempotent, close_trip_in_tx, resolve_rejection, close_trip_request,
  resolution, settle_assignments,
}
use voyya_backend.Assignment.TripClosing.Laws.{may_close, closed_row, closing_cases}
use voyya_backend.Assignment.TripClosing.Rules.{no_show_waits, completion_pays, closes_once}

abbrev tables : {A : Type 0} → Outcome A → Db
tables (done a db) = db
tables (thrown e) = sample_db

abbrev after_take : Db
after_take = tables (take_trip "4821" 5000 5000 11 5 7 sample_db)

take_trip_effect_example :
    ((is_accepted_outcome (AcceptOutcome.accepted 1 55 21) ≡ false) × (after_take ≡ sample_db))
    ⊎ ((a : Assignment) × (find (is_offer 11 7) sample_db.assignments ≡ some a)
        × (a.driver_id ≡ 5)
        × (a.status ≡ notified)
        × Taken "4821" 5000 5 7 a (AcceptOutcome.accepted 1 55 21) sample_db after_take)
unfolding take_trip take_offer get_assignment get_current_commission mark_trip_request_assigned
    update_watched_trips trigger_raises trigger_row take_driver update_drivers
    mark_assignment_accepted update_assignments get_trip_request
take_trip_effect_example =
    take_trip_effect "4821" 5000 5000 11 5 7 sample_db after_take (AcceptOutcome.accepted 1 55 21)
      refl

taken_once_example :
    (is_accepted_outcome AcceptOutcome.already_taken ≡ false) × (after_take ≡ after_take)
unfolding take_trip take_offer get_assignment get_current_commission mark_trip_request_assigned
    update_watched_trips trigger_raises trigger_row take_driver update_drivers
    mark_assignment_accepted update_assignments get_trip_request
taken_once_example =
    taken_once "4821" "1111" 5000 5000 5500 5500 11 5 7 12 6 8 sample_db after_take after_take
      after_take 1 55 21 AcceptOutcome.already_taken second_offer (omega arith) refl refl refl refl
      refl

abbrev no_show_of : ℕ → CloseTripInput
no_show_of k = record {
  trip_request_id = k;
  to = TripClosingTarget.no_show;
  driver_id = some 9;
  cash_collected = false;
  penalty_recorded = true;
  cancellation_reason = none;
  no_show_grace_min = 5;
}

abbrev completion : CloseTripInput
completion = record (no_show_of 3) {
  to = TripClosingTarget.completed;
  cash_collected = true;
  penalty_recorded = false;
}

abbrev after_no_show : Db
after_no_show = tables (close_trip_in_tx "" 400000 (some 7) (no_show_of 2) sample_db)

no_show_waits_example :
    (at : ℕ) × (some 60000 ≡ some at)
    × (driver_en_route ≡ driver_en_route)
    × (at + 5 * 60000 ≤ 400000)
unfolding close_trip_in_tx close_trip_request resolution settle_assignments
    close_assignments_for_trip release_driver update_watched_trips trigger_raises trigger_row
    update_assignments update_drivers get_trip_request resolve_rejection
no_show_waits_example =
    no_show_waits "" 400000 2 (some 7) (no_show_of 2) refl (λ e. cc) Holds-arrived_trip
      after_no_show (closed_row "" 400000 (no_show_of 2) arrived_trip) refl refl

closing_cases_example :
    ((may_close 400000 (some 7) (no_show_of 2) arrived_trip ≡ true)
      × (applied (closed_row "" 400000 (no_show_of 2) arrived_trip)
          ≡ applied (closed_row "" 400000 (no_show_of 2) arrived_trip))
      × Holds 2 (closed_row "" 400000 (no_show_of 2) arrived_trip) after_no_show)
    ⊎ ((may_close 400000 (some 7) (no_show_of 2) arrived_trip ≡ false)
        × (arrived_trip.status ≡ TripStatus.no_show)
        × (applied (closed_row "" 400000 (no_show_of 2) arrived_trip) ≡ idempotent arrived_trip)
        × Holds 2 arrived_trip after_no_show)
    ⊎ ((may_close 400000 (some 7) (no_show_of 2) arrived_trip ≡ false)
        × (arrived_trip.status ≢ TripStatus.no_show)
        × (applied (closed_row "" 400000 (no_show_of 2) arrived_trip)
            ≡ resolve_rejection 400000 (no_show_of 2) (some arrived_trip))
        × (after_no_show ≡ sample_db))
unfolding close_trip_in_tx close_trip_request resolution settle_assignments
    close_assignments_for_trip release_driver update_watched_trips trigger_raises trigger_row
    update_assignments update_drivers get_trip_request resolve_rejection
closing_cases_example =
    closing_cases "" 400000 2 (some 7) (no_show_of 2) refl (λ e. cc) Holds-arrived_trip
      after_no_show (applied (closed_row "" 400000 (no_show_of 2) arrived_trip)) refl

abbrev paid_trip : TripRequest
paid_trip = closed_row "" 95000 completion moving_trip

abbrev after_completion : Db
after_completion = tables (close_trip_in_tx "" 95000 (some 7) completion sample_db)

completion_pays_example :
    (moving_trip.status ≡ in_progress)
    × (paid_trip.status ≡ TripStatus.completed)
    × (paid_trip.net_earnings ≡ some (sub_ℕ 10000 1250))
    × (paid_trip.finished_at ≡ some 95000)
    × (paid_trip.cash_collected_at ≡ some 95000)
unfolding close_trip_in_tx close_trip_request resolution settle_assignments
    close_assignments_for_trip release_driver update_watched_trips trigger_raises trigger_row
    update_assignments update_drivers get_trip_request resolve_rejection
completion_pays_example =
    completion_pays "" 95000 3 (some 7) completion refl (λ e. refl) Holds-moving_trip
      after_completion paid_trip refl refl

closes_once_example :
    (idempotent paid_trip ≡ idempotent paid_trip)
    × Holds 3 paid_trip (tables (close_trip_in_tx "" 99000 (some 7) completion after_completion))
unfolding close_trip_in_tx close_trip_request resolution settle_assignments
    close_assignments_for_trip release_driver update_watched_trips trigger_raises trigger_row
    update_assignments update_drivers get_trip_request resolve_rejection
closes_once_example =
    closes_once "" 95000 3 (some 7) completion refl (λ e. refl) Holds-moving_trip after_completion
      paid_trip refl "" 99000 (some 7) completion refl (λ e. refl) refl (idempotent paid_trip)
      (tables (close_trip_in_tx "" 99000 (some 7) completion after_completion)) refl
