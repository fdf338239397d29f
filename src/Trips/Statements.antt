-- ===== src/Trips/Statements.antt =====
-- The statements that write trips.trip_request, each by its WHERE condition and its SET list:
-- apps/api/src/modules/trips/trips.repository.ts and
-- apps/api/src/modules/assignment/assignment.repository.ts.
use voyya_backend.Prelude.{
  ℕ, ◌+◌, ◌*◌, ◌/◌, String, str_eq, Bool, false, not, ◌&&◌, ◌||◌, Option, none, some, List, leb,
  ◌==◌, if◌then◌else◌, is_none, find, update_where, any,
}
use mathlib.Core.Option
use voyya_backend.Prelude.Int.{sub_ℕ}
use voyya_backend.Contracts.TripStatus.{
  TripStatus, pending_assignment, assigned, driver_en_route, in_progress, completed, no_driver,
  no_show, same, includes,
}
use voyya_backend.Db.Rows.{TripRequest, eq_opt}
use voyya_backend.Db.Tx.{Tx, done, thrown, check_violation}
use voyya_backend.Db.StartCodeTrigger.{trigger_raises, trigger_row}

-- An update of columns that the start-code trigger does not watch; the first row it returns.
unfoldable pub update_trips :
    (TripRequest → Bool) → (TripRequest → TripRequest) → Tx (Option TripRequest)
update_trips p set db =
    done (Option.map set (find p db.trips)) (record db { trips = update_where p set db.trips })

abbrev pub after_trigger : String → (TripRequest → TripRequest) → TripRequest → TripRequest
after_trigger fresh set old = trigger_row fresh old (set old)

-- An update that names a watched column: the trigger may refuse it, and has the last word on a row.
unfoldable pub update_watched_trips :
    String → (TripRequest → Bool) → (TripRequest → TripRequest) → Tx (Option TripRequest)
update_watched_trips fresh p set db =
    if any (λ r. p r && trigger_raises r (set r)) db.trips
    then thrown check_violation
    else done (Option.map (after_trigger fresh set) (find p db.trips))
        (record db { trips = update_where p (after_trigger fresh set) db.trips })

abbrev pub has_trip_id : ℕ → TripRequest → Bool
has_trip_id k r = r.trip_request_id == k

-- markNoDriverIfUnassigned
abbrev pub no_driver_where : ℕ → TripRequest → Bool
no_driver_where k r = has_trip_id k r && (same r.status pending_assignment && is_none r.company_id)

abbrev pub no_driver_set : ℕ → TripRequest → TripRequest
no_driver_set now r = record r { status = no_driver; updated_at = now }

-- markEnRoute
abbrev pub en_route_where : ℕ → TripRequest → Bool
en_route_where k r = has_trip_id k r && (same r.status assigned)

abbrev pub en_route_set : ℕ → TripRequest → TripRequest
en_route_set now r = record r { status = driver_en_route; updated_at = now }

-- markArrived
abbrev pub arrived_where : ℕ → TripRequest → Bool
arrived_where k r = has_trip_id k r && (same r.status driver_en_route && is_none r.arrived_at)

abbrev pub arrived_set : ℕ → TripRequest → TripRequest
arrived_set now r = record r { arrived_at = some now; updated_at = now }

-- `start_code = ${code}::text`, false where either is NULL.
abbrev pub code_matches : Option String → Option String → Bool
code_matches none code = false
code_matches (some own) none = false
code_matches (some own) (some code) = str_eq own code

-- `start_code IS NOT NULL AND start_code <> ${code}::text`
abbrev pub code_differs : Option String → String → Bool
code_differs none code = false
code_differs (some own) code = not (str_eq own code)

-- startWithCode
abbrev pub start_where : ℕ → Option String → TripRequest → Bool
start_where k code r =
    has_trip_id k r
    && (same r.status driver_en_route
        && is_none r.start_code_blocked_at
        && (code_matches r.start_code code || is_none r.start_code && r.start_code_exempt))

abbrev pub start_set : ℕ → TripRequest → TripRequest
start_set now r = record r { status = in_progress; started_at = some now; updated_at = now }

abbrev pub start_code_max_failed_attempts : ℕ
start_code_max_failed_attempts = 5

-- recordFailedStartAttempt
abbrev pub failed_start_where : ℕ → String → TripRequest → Bool
failed_start_where k code r =
    has_trip_id k r
    && (same r.status driver_en_route
        && is_none r.start_code_blocked_at
        && code_differs r.start_code code)

abbrev pub failed_start_set : ℕ → TripRequest → TripRequest
failed_start_set now r =
    let exhausted = leb start_code_max_failed_attempts (r.start_code_failed_attempts + 1) in
    record r {
      start_code_failed_attempts = r.start_code_failed_attempts + 1;
      start_code_blocked_at = if exhausted then some now else none;
      start_code = if exhausted then none else r.start_code;
    }

-- markCashCollected
abbrev pub cash_where : ℕ → TripRequest → Bool
cash_where k r = has_trip_id k r && (same r.status completed && is_none r.cash_collected_at)

abbrev pub cash_set : ℕ → TripRequest → TripRequest
cash_set now r = record r { cash_collected_at = some now; updated_at = now }

-- reopenTripRequest
abbrev pub reopen_where : ℕ → TripRequest → Bool
reopen_where k r = has_trip_id k r && (same r.status assigned)

abbrev pub reopen_set : ℕ → TripRequest → TripRequest
reopen_set now r = record r {
  status = pending_assignment;
  arrived_at = none;
  company_id = none;
  commission = 0;
  commission_pct = none;
  updated_at = now;
}

-- `round(fare * commission_pct / 100)`, the percentage in hundredths.
abbrev pub commission_of : ℕ → ℕ → ℕ
commission_of fare pct = (fare * pct + 5000) / 10000

-- markTripRequestAssigned, given that the company's open commission row is `pct`.
abbrev pub assign_where : ℕ → ℕ → TripRequest → Bool
assign_where k company r =
    has_trip_id k r
    && (same r.status pending_assignment
        && (is_none r.requested_company_id || eq_opt r.requested_company_id company))

abbrev pub assign_set : ℕ → ℕ → ℕ → TripRequest → TripRequest
assign_set now company pct r = record r {
  status = assigned;
  assigned_at = some now;
  updated_at = now;
  company_id = some company;
  commission_pct = some pct;
  commission = commission_of r.fare pct;
}

-- closeTripRequest, `grace` in minutes.
abbrev pub grace_over : ℕ → ℕ → Option ℕ → Bool
grace_over now grace none = false
grace_over now grace (some arrived) = leb (arrived + grace * 60000) now

abbrev pub close_where : ℕ → ℕ → TripStatus → List TripStatus → ℕ → Bool → TripRequest → Bool
close_where now k to from grace unowned_only r =
    has_trip_id k r
    && (includes from r.status
        && (not unowned_only || is_none r.company_id)
        && (not (same to no_show) || grace_over now grace r.arrived_at))

abbrev pub close_set : ℕ → TripStatus → Bool → Bool → TripRequest → TripRequest
close_set now to cash_collected penalty_recorded r = record r {
  status = to;
  finished_at = some now;
  updated_at = now;
  net_earnings = if same to completed then some (sub_ℕ r.fare r.commission) else r.net_earnings;
  cash_collected_at = if cash_collected then some now else r.cash_collected_at;
  penalty_recorded = r.penalty_recorded || penalty_recorded && is_none r.start_code_blocked_at;
}
