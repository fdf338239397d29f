-- ===== src/Trips/Lifecycle.antt =====
-- apps/api/src/modules/trips/trip-lifecycle.service.ts: what the assigned driver does to a trip.
-- Each operation checks in its transaction that the driver owns the trip; an answer that is read
-- off the outcome comes after the commit. `grace` is the no-show grace in minutes of a municipality
-- and a service.
use voyya_backend.Prelude.{
  Result, ok, err, ℕ, ◌+◌, ◌*◌, String, Bool, true, false, ◌&&◌, Option, none, some, List, [], ◌∷◌,
  ◌==◌, if◌then◌else◌, any,
}
use voyya_backend.Prelude.Int.{ℤ}
use voyya_backend.Contracts.TripStatus.{TripStatus, driver_en_route, in_progress, completed}
use voyya_backend.Contracts.AssignmentStatus
use voyya_backend.Contracts.AssignmentStatus.{AssignmentStatus}
use voyya_backend.Db.Rows.{TripRequest, Assignment, Db}
use voyya_backend.Db.Tx.{
  Tx, done, thrown, pure, throw, ◌>>=◌, ◌>>◌, run_in_tenant, DbError, trip_already_closed,
  not_the_driver, trip_not_found,
}
use voyya_backend.Trips.Repository.{
  TripTransitionOutcome, StartOutcome, get_trip_request, mark_en_route, mark_arrived,
  start_with_code, mark_cash_collected,
}
use voyya_backend.Assignment.Targets.{TripClosingTarget}
use voyya_backend.Assignment.TripClosing.{
  CloseTripInput, CloseTripOutcome, CloseTripRejectionReason, close_trip_in_tx,
}

pub data LifecycleError : Type 0 where
  invalid_trip_transition : TripStatus → LifecycleError
  start_code_required : LifecycleError
  start_code_invalid : ℕ → LifecycleError
  start_code_blocked : ℕ → LifecycleError
  arrival_not_marked : LifecycleError
  no_show_grace_pending : ℕ → LifecycleError
  database : DbError → LifecycleError

pub record TripTransitionResult : Type 0 where
  pub status : TripStatus
  pub idempotent : Bool
  pub arrived_at : Option ℕ
  pub no_show_available_at : Option ℕ
  pub finished_at : Option ℕ
  pub net_earnings : Option ℤ
  pub cash_collected_at : Option ℕ

abbrev pub plain_result : TripStatus → Bool → TripTransitionResult
plain_result status idempotent = record {
  status = status;
  idempotent = idempotent;
  arrived_at = none;
  no_show_available_at = none;
  finished_at = none;
  net_earnings = none;
  cash_collected_at = none;
}

-- getAssignmentForDriver finds one.
abbrev pub is_owned : ℕ → ℕ → ℕ → List AssignmentStatus → Assignment → Bool
is_owned k driver company allow a =
    a.trip_request_id == k
    && a.driver_id == driver
    && a.company_id == company
    && AssignmentStatus.includes allow a.status

abbrev pub closed_assignment_statuses : List AssignmentStatus
closed_assignment_statuses = AssignmentStatus.completed ∷ []

-- assertOwnership
unfoldable pub assert_ownership : ℕ → ℕ → ℕ → List AssignmentStatus → Tx (Unit {0})
assert_ownership k driver company allow db =
    if any (is_owned k driver company allow) db.assignments
    then done tt db
    else if any (is_owned k driver company closed_assignment_statuses) db.assignments
    then thrown trip_already_closed
    else thrown not_the_driver

-- inOwnedTrip, within the transaction
unfoldable pub in_owned_trip : {A : Type 0} → ℕ → ℕ → ℕ → List AssignmentStatus → Tx A → Tx A
in_owned_trip k driver company allow run = do assert_ownership k driver company allow; run

abbrev pub open_assignment_statuses : List AssignmentStatus
open_assignment_statuses = AssignmentStatus.accepted ∷ []

-- getTripRequestOrThrow
abbrev pub found_or_throw : Option TripRequest → Tx TripRequest
found_or_throw none = throw trip_not_found
found_or_throw (some t) = pure t

unfoldable pub get_trip_request_or_throw : ℕ → Tx TripRequest
get_trip_request_or_throw k = do t ← get_trip_request k; found_or_throw t

-- fromTransitionOutcome
abbrev pub from_transition_outcome :
    TripStatus → TripTransitionOutcome → Result LifecycleError TripTransitionResult
from_transition_outcome status (TripTransitionOutcome.applied at) = ok (plain_result status false)
from_transition_outcome status (TripTransitionOutcome.idempotent at) = ok (plain_result status true)
from_transition_outcome status (TripTransitionOutcome.rejected current) =
    err (invalid_trip_transition current)

-- fromStartOutcome
abbrev pub from_start_outcome : StartOutcome → Result LifecycleError TripTransitionResult
from_start_outcome StartOutcome.started = ok (plain_result in_progress false)
from_start_outcome StartOutcome.idempotent = ok (plain_result in_progress true)
from_start_outcome StartOutcome.code_required = err start_code_required
from_start_outcome (StartOutcome.code_invalid remaining) = err (start_code_invalid remaining)
from_start_outcome (StartOutcome.blocked at) = err (start_code_blocked at)
from_start_outcome (StartOutcome.rejected status) = err (invalid_trip_transition status)

abbrev pub close_result : Bool → TripRequest → TripTransitionResult
close_result idempotent row = record {
  status = row.status;
  idempotent = idempotent;
  arrived_at = none;
  no_show_available_at = none;
  finished_at = row.finished_at;
  net_earnings = row.net_earnings;
  cash_collected_at = row.cash_collected_at;
}

-- fromCloseOutcome
abbrev pub from_close_outcome : CloseTripOutcome → Result LifecycleError TripTransitionResult
from_close_outcome (CloseTripOutcome.applied row) = ok (close_result false row)
from_close_outcome (CloseTripOutcome.idempotent row) = ok (close_result true row)
from_close_outcome (CloseTripOutcome.rejected CloseTripRejectionReason.not_arrived status) =
    err arrival_not_marked
from_close_outcome
      (CloseTripOutcome.rejected (CloseTripRejectionReason.grace_pending seconds) status) =
    err (no_show_grace_pending seconds)
from_close_outcome (CloseTripOutcome.rejected CloseTripRejectionReason.invalid_status status) =
    err (invalid_trip_transition status)

-- The answer that is read off what the transaction returned.
abbrev pub answer :
    {A : Type 0}
    → (A → Result LifecycleError TripTransitionResult)
    → Result DbError A × Db
    → Result LifecycleError TripTransitionResult × Db
answer read (ok a, db) = (read a, db)
answer read (err e, db) = (err (database e), db)

abbrev pub mark_en_route_tx : String → ℕ → ℕ → ℕ → ℕ → Tx TripTransitionOutcome
mark_en_route_tx fresh now k driver company =
    in_owned_trip k driver company open_assignment_statuses (mark_en_route fresh now k)

-- markEnRoute
unfoldable pub drive_to_pickup :
    String → ℕ → ℕ → ℕ → ℕ → Db → Result LifecycleError TripTransitionResult × Db
drive_to_pickup fresh now k driver company db =
    answer (from_transition_outcome driver_en_route)
      (run_in_tenant (mark_en_route_tx fresh now k driver company) db)

-- markArrived: the outcome, with the grace of the trip's municipality and service.
abbrev pub with_grace : (ℕ → ℕ → ℕ) → ℕ → TripTransitionOutcome → Tx (TripTransitionOutcome × ℕ)
with_grace grace k (TripTransitionOutcome.rejected status) =
    pure (TripTransitionOutcome.rejected status, 0)
with_grace grace k (TripTransitionOutcome.applied at) = do
  trip ← get_trip_request_or_throw k
  pure (TripTransitionOutcome.applied at, grace trip.municipality_id trip.service_type)
with_grace grace k (TripTransitionOutcome.idempotent at) = do
  trip ← get_trip_request_or_throw k
  pure (TripTransitionOutcome.idempotent at, grace trip.municipality_id trip.service_type)

abbrev pub mark_arrived_tx : (ℕ → ℕ → ℕ) → ℕ → ℕ → ℕ → ℕ → Tx (TripTransitionOutcome × ℕ)
mark_arrived_tx grace now k driver company =
    in_owned_trip k driver company open_assignment_statuses
      (◌>>=◌ (mark_arrived now k) (with_grace grace k))

abbrev pub arrived_result : ℕ → ℕ → Bool → TripTransitionResult
arrived_result at grace_min idempotent = record (plain_result driver_en_route idempotent) {
  arrived_at = some at;
  no_show_available_at = some (at + grace_min * 60000);
}

abbrev pub from_arrived_outcome :
    TripTransitionOutcome × ℕ → Result LifecycleError TripTransitionResult
from_arrived_outcome (TripTransitionOutcome.rejected status, g) =
    err (invalid_trip_transition status)
from_arrived_outcome (TripTransitionOutcome.applied at, g) = ok (arrived_result at g false)
from_arrived_outcome (TripTransitionOutcome.idempotent at, g) = ok (arrived_result at g true)

unfoldable pub arrive_at_pickup :
    (ℕ → ℕ → ℕ) → ℕ → ℕ → ℕ → ℕ → Db → Result LifecycleError TripTransitionResult × Db
arrive_at_pickup grace now k driver company db =
    answer from_arrived_outcome (run_in_tenant (mark_arrived_tx grace now k driver company) db)

-- markStarted
abbrev pub mark_started_tx : String → ℕ → ℕ → ℕ → ℕ → Option String → Tx StartOutcome
mark_started_tx fresh now k driver company code =
    in_owned_trip k driver company open_assignment_statuses (start_with_code fresh now k code)

unfoldable pub mark_started :
    String → ℕ → ℕ → ℕ → ℕ → Option String → Db → Result LifecycleError TripTransitionResult × Db
mark_started fresh now k driver company code db =
    answer from_start_outcome (run_in_tenant (mark_started_tx fresh now k driver company code) db)

-- confirmCashCollected
abbrev pub confirm_cash_tx : ℕ → ℕ → ℕ → ℕ → Tx TripTransitionOutcome
confirm_cash_tx now k driver company =
    in_owned_trip k driver company closed_assignment_statuses (mark_cash_collected now k)

abbrev pub cash_result : ℕ → Bool → TripTransitionResult
cash_result at idempotent = record (plain_result completed idempotent) {
  cash_collected_at = some at;
}

abbrev pub from_cash_outcome : TripTransitionOutcome → Result LifecycleError TripTransitionResult
from_cash_outcome (TripTransitionOutcome.rejected status) = err (invalid_trip_transition status)
from_cash_outcome (TripTransitionOutcome.applied at) = ok (cash_result at false)
from_cash_outcome (TripTransitionOutcome.idempotent at) = ok (cash_result at true)

unfoldable pub confirm_cash_collected :
    ℕ → ℕ → ℕ → ℕ → Db → Result LifecycleError TripTransitionResult × Db
confirm_cash_collected now k driver company db =
    answer from_cash_outcome (run_in_tenant (confirm_cash_tx now k driver company) db)

-- complete
abbrev pub complete_input : ℕ → ℕ → Bool → CloseTripInput
complete_input k driver cash = record {
  trip_request_id = k;
  to = TripClosingTarget.completed;
  driver_id = some driver;
  cash_collected = cash;
  penalty_recorded = false;
  cancellation_reason = none;
  no_show_grace_min = 0;
}

abbrev pub complete_tx : String → ℕ → ℕ → ℕ → ℕ → Bool → Tx CloseTripOutcome
complete_tx fresh now k driver company cash =
    in_owned_trip k driver company open_assignment_statuses (
      ◌>>=◌ (get_trip_request_or_throw k)
        λ _. close_trip_in_tx fresh now (some company) (complete_input k driver cash))

unfoldable pub complete :
    String → ℕ → ℕ → ℕ → ℕ → Bool → Db → Result LifecycleError TripTransitionResult × Db
complete fresh now k driver company cash db =
    answer from_close_outcome (run_in_tenant (complete_tx fresh now k driver company cash) db)

-- declareNoShow
abbrev pub no_show_input : ℕ → ℕ → ℕ → CloseTripInput
no_show_input k driver grace_min = record {
  trip_request_id = k;
  to = TripClosingTarget.no_show;
  driver_id = some driver;
  cash_collected = false;
  penalty_recorded = false;
  cancellation_reason = none;
  no_show_grace_min = grace_min;
}

abbrev pub no_show_tx : (ℕ → ℕ → ℕ) → String → ℕ → ℕ → ℕ → ℕ → Tx CloseTripOutcome
no_show_tx grace fresh now k driver company =
    in_owned_trip k driver company open_assignment_statuses (
      ◌>>=◌ (get_trip_request_or_throw k) λ subject.
        close_trip_in_tx fresh now (some company)
          (no_show_input k driver (grace subject.municipality_id subject.service_type)))

unfoldable pub declare_no_show :
    (ℕ → ℕ → ℕ) → String → ℕ → ℕ → ℕ → ℕ → Db → Result LifecycleError TripTransitionResult × Db
declare_no_show grace fresh now k driver company db =
    answer from_close_outcome (run_in_tenant (no_show_tx grace fresh now k driver company) db)
