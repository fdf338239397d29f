-- ===== src/Assignment/DriverShift.antt =====
-- apps/api/src/modules/assignment/driver-shift.service.ts, with getWindowTripOfDriver of
-- driver.repository.ts and sharingFor of driver-tracking.service.ts: the shift of a driver and the
-- driver's location. `between` stands for what others do between the transactions of one request.
pub mod Hidden
pub mod Transactions
pub mod Privacy
use voyya_backend.Assignment.DriverRows.{
  end_shift_row, on_or_busy, refresh_location_while_on_trip, report_location_row, shift_row,
  start_shift_row,
}
use voyya_backend.Prelude.{
  Result, ok, err, ℕ, ◌+◌, ◌*◌, Bool, true, false, not, ◌&&◌, ◌||◌, Option, none, some, List, [],
  ◌∷◌, ltb, ◌==◌, if◌then◌else◌, is_none, is_some, length, find, any, not→false, &&→right, find-In,
  In, All-In, All-of, All-map, All-filter, All-++, In-filter, filter-In, In-length, any-In, In-map,
  map-In, zero, suc, ◌-◌, ◌/◌, ◌%◌, ◌≤◌, ◌<◌, compare, Ordering, min, max, String, str_eq, eq_iff,
  ◌≡◌, refl, sym, ap, ap₂, ◌∙◌, subst, ◌≢◌, ◌↔◌, ◌⊎◌, inl, inr, ◌++◌, map, arith, leb, or_else,
  Bool-cases, Option-cases, ltb→lt, lt→ltb, leb→le, le→leb, ==→eq, ==_refl, length-append, filter,
  update_where, count, All, Rowwise, All-update_where, Rowwise-update_where, any-eq_false, All-find,
  Rowwise-refl, Rowwise-trans, find-update_where, keep, find-and, count-update_where,
  update_where-none, any-find,
}
use voyya_backend.Trips.UiState.{is_in_trip_window}
use voyya_backend.Contracts.AssignmentStatus as Status
use voyya_backend.Contracts.AssignmentStatus.{accepted}
use voyya_backend.Db.Rows.{
  TripRequest, Assignment, Driver, DriverStatus, off_shift, available, on_trip, Coordinate, Db,
  same_driver_status,
}
use voyya_backend.Db.Tx.{
  Tx, DbError, done, thrown, location_consent_required, pure, ◌>>=◌, run_in_tenant,
}
use voyya_backend.Assignment.Statements.{update_drivers}
use voyya_backend.Auth.Consents.{
  is_driver_role, ConsentStatus, ConsentRevokedEvent, is_granted, covers_location_sharing,
  status_for,
}

-- withLocationConsent, isLocationConsentAccepted
abbrev pub is_location_consent_accepted : ConsentStatus → Bool → Bool
is_location_consent_accepted status current_version =
    is_granted status.state && not (current_version && status.requires_acceptance)

unfoldable pub with_location_consent : {A : Type 0} → ℕ → Bool → (ConsentStatus → Tx A) → Tx A
with_location_consent driver current_version write db =
    if not (is_location_consent_accepted (status_for driver db) current_version)
    then thrown location_consent_required
    else write (status_for driver db) db

pub record DriverShiftState : Type 0 where
  pub status : DriverStatus
  pub on_shift : Bool
  pub vehicle_linked : Bool
  pub location_updated_at : Option ℕ

-- toShiftState
abbrev pub to_shift_state : Driver → DriverShiftState
to_shift_state d = record {
  status = d.status;
  on_shift = on_or_busy d.status;
  vehicle_linked = is_some d.current_vehicle_id;
  location_updated_at = d.location_updated_at;
}

pub data ShiftError : Type 0 where
  consent_required driver_not_found no_vehicle_linked driver_not_eligible : ShiftError
  active_trip_in_progress not_on_shift : ShiftError
  database_error : DbError → ShiftError

abbrev pub shift_error : DbError → ShiftError
shift_error location_consent_required = consent_required
shift_error e = database_error e

abbrev pub refreshed :
    Driver → Result DbError (Option Driver) × Db → Result ShiftError DriverShiftState × Db
refreshed current (err e, db) = (err (shift_error e), db)
refreshed current (ok none, db) = (ok (to_shift_state current), db)
refreshed current (ok (some row), db) = (ok (to_shift_state row), db)

-- DriverShiftService.startShift, when no row was started
abbrev pub not_started :
    ℕ
    → ℕ
    → ℕ
    → Coordinate
    → (Db → Db)
    → Option Driver
    → Db
    → Result ShiftError DriverShiftState × Db
not_started now driver company p between none db = (err driver_not_found, db)
not_started now driver company p between (some current) db =
    if is_none current.current_vehicle_id
    then (err no_vehicle_linked, db)
    else if same_driver_status current.status on_trip
    then refreshed current (
        run_in_tenant
          (with_location_consent driver true
            (λ s. refresh_location_while_on_trip now driver company p))
          (between db))
    else (err driver_not_eligible, db)

abbrev pub started_or :
    ℕ
    → ℕ
    → ℕ
    → Coordinate
    → (Db → Db)
    → Result DbError (Option Driver) × Db
    → Result ShiftError DriverShiftState × Db
started_or now driver company p between (err e, db) = (err (shift_error e), db)
started_or now driver company p between (ok (some row), db) = (ok (to_shift_state row), db)
started_or now driver company p between (ok none, db) =
    not_started now driver company p between (shift_row driver company (between db)) (between db)

unfoldable pub start_shift :
    ℕ → ℕ → ℕ → Coordinate → (Db → Db) → Db → Result ShiftError DriverShiftState × Db
start_shift now driver company p between db = started_or now driver company p between (
    run_in_tenant (with_location_consent driver true (λ s. start_shift_row now driver company p))
      db)

-- DriverShiftService.endShift
abbrev pub not_ended : Option Driver → Db → Result ShiftError DriverShiftState × Db
not_ended none db = (err driver_not_found, db)
not_ended (some current) db =
    if same_driver_status current.status on_trip
    then (err active_trip_in_progress, db)
    else (ok (to_shift_state current), db)

abbrev pub ended_or :
    ℕ
    → ℕ
    → (Db → Db)
    → Result DbError (Option Driver) × Db
    → Result ShiftError DriverShiftState × Db
ended_or driver company between (err e, db) = (err (shift_error e), db)
ended_or driver company between (ok (some row), db) = (ok (to_shift_state row), db)
ended_or driver company between (ok none, db) =
    not_ended (shift_row driver company (between db)) (between db)

unfoldable pub end_shift : ℕ → ℕ → (Db → Db) → Db → Result ShiftError DriverShiftState × Db
end_shift driver company between db =
    ended_or driver company between (run_in_tenant (end_shift_row driver company) db)

-- updateShift: on with a location, or off
unfoldable pub update_shift :
    ℕ → ℕ → ℕ → Option Coordinate → (Db → Db) → Db → Result ShiftError DriverShiftState × Db
unfolding start_shift end_shift
update_shift now driver company (some p) between db = start_shift now driver company p between db
update_shift now driver company none between db = end_shift driver company between db

-- getWindowTripOfDriver
abbrev pub is_window_trip : ℕ → TripRequest → Bool
is_window_trip trip t = t.trip_request_id == trip && is_in_trip_window t.status

abbrev pub in_window : Db → ℕ → ℕ → Assignment → Bool
in_window db driver company a =
    a.driver_id == driver
    && a.company_id == company
    && Status.same a.status accepted
    && any (is_window_trip a.trip_request_id) db.trips

abbrev pub trip_of : Option Assignment → Option ℕ
trip_of none = none
trip_of (some a) = some a.trip_request_id

abbrev pub get_window_trip_of_driver : ℕ → ℕ → Db → Option ℕ
get_window_trip_of_driver driver company db =
    trip_of (find (in_window db driver company) db.assignments)

-- sharingFor: the trip that the driver's location is shared with
abbrev pub sharing_for : Option ℕ → ConsentStatus → Option ℕ
sharing_for none consent = none
sharing_for (some trip) consent = if covers_location_sharing consent then some trip else none

-- reportLocation; no answer where the driver is not on the shift
abbrev pub reported_sharing : ℕ → ℕ → ConsentStatus → Bool → Tx (Option (Option ℕ))
reported_sharing driver company consent false db = done none db
reported_sharing driver company consent true db =
    done (some (sharing_for (get_window_trip_of_driver driver company db) consent)) db

abbrev pub report_answer :
    Result DbError (Option (Option ℕ)) × Db → Result ShiftError (Option ℕ) × Db
report_answer (err e, db) = (err (shift_error e), db)
report_answer (ok none, db) = (err not_on_shift, db)
report_answer (ok (some sharing), db) = (ok sharing, db)

abbrev pub report_write : ℕ → ℕ → ℕ → Coordinate → ConsentStatus → Tx (Option (Option ℕ))
report_write now driver company p consent = do
  written ← report_location_row now driver company p
  reported_sharing driver company consent written

unfoldable pub report_location : ℕ → ℕ → ℕ → Coordinate → Db → Result ShiftError (Option ℕ) × Db
report_location now driver company p db =
    report_answer
      (run_in_tenant (with_location_consent driver false (report_write now driver company p)) db)
