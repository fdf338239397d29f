-- ===== src/Assignment/Statements.antt =====
-- apps/api/src/modules/assignment/assignment.repository.ts: the statements on the assignments, on
-- the drivers, and the one that gives a trip to a company. Two partial unique indexes of
-- apps/api/prisma/sql/00_postgis_rls.sql guard the assignments.
use voyya_backend.Prelude.{
  ℕ, String, Bool, true, false, not, ◌&&◌, ◌||◌, Option, none, some, List, [], ◌∷◌, ◌++◌, map, ltb,
  ◌==◌, if◌then◌else◌, is_none, is_some, length, find, filter, update_where, any, count,
}
use voyya_backend.Contracts.AssignmentStatus.{
  AssignmentStatus, notified, accepted, rejected, timeout, cancelled, completed, created, same,
  includes,
}
use voyya_backend.Db.Rows.{
  Assignment, Driver, Company, CompanyCommission, Db, available, on_trip, off_shift,
  same_driver_status,
}
use voyya_backend.Db.Tx.{Tx, done, thrown, unique_violation, pure, ◌>>=◌}
use voyya_backend.Trips.Statements.{update_watched_trips, assign_where, assign_set}

-- A unique index on (trip_request_id) over the rows of one status.
abbrev pub clashes : AssignmentStatus → List Assignment → Bool
clashes s rows =
    any
      (λ a.
        same a.status s
        && ltb 1 (count (λ b. same b.status s && b.trip_request_id == a.trip_request_id) rows))
      rows

-- The rows that an update finds, as it leaves them.
unfoldable pub update_assignments :
    (Assignment → Bool) → (Assignment → Assignment) → Tx (List Assignment)
update_assignments p set db =
    let rows = update_where p set db.assignments in
    if clashes accepted rows || clashes completed rows
    then thrown unique_violation
    else done (map set (filter p db.assignments)) (record db { assignments = rows })

unfoldable pub update_drivers : (Driver → Bool) → (Driver → Driver) → Tx (List Driver)
update_drivers p set db =
    done (map set (filter p db.drivers)) (record db { drivers = update_where p set db.drivers })

abbrev pub is_offer : ℕ → ℕ → Assignment → Bool
is_offer k company a = a.assignment_id == k && a.company_id == company

-- getAssignment
unfoldable pub get_assignment : ℕ → ℕ → Tx (Option Assignment)
get_assignment k company db = done (find (is_offer k company) db.assignments) db

-- `expires_at > now()`, false where there is none.
abbrev pub expires_after : ℕ → Option ℕ → Bool
expires_after now none = false
expires_after now (some at) = ltb now at

-- createOfferIfDriverFree: the driver is available and has no live offer.
abbrev pub is_free_driver : ℕ → ℕ → Driver → Bool
is_free_driver driver company d =
    d.driver_id == driver && d.company_id == company && same_driver_status d.status available

abbrev pub is_live_offer : ℕ → ℕ → Assignment → Bool
is_live_offer now driver a =
    a.driver_id == driver
    && includes (created ∷ notified ∷ []) a.status
    && expires_after now a.expires_at

unfoldable pub create_offer_if_driver_free : ℕ → Assignment → Tx (Option Assignment)
create_offer_if_driver_free now offer db =
    if not (any (is_free_driver offer.driver_id offer.company_id) db.drivers)
    then done none db
    else if any (is_live_offer now offer.driver_id) db.assignments
    then done none db
    else let row = record offer { status = notified; assigned_at = now } in
      done (some row) (record db { assignments = db.assignments ++ row ∷ [] })

-- takeDriver
abbrev pub take_driver_set : Driver → Driver
take_driver_set d = record d { status = on_trip }

unfoldable pub take_driver : ℕ → ℕ → Tx Bool
take_driver driver company = do
  rows ← update_drivers (is_free_driver driver company) take_driver_set
  pure (length rows == 1)

-- releaseDriver: back to the shift, or off it where the driver has no location.
abbrev pub on_trip_where : ℕ → ℕ → Driver → Bool
on_trip_where driver company d =
    d.driver_id == driver && same_driver_status d.status on_trip && d.company_id == company

abbrev pub release_set : Driver → Driver
release_set d = record d { status = if is_some d.location then available else off_shift }

unfoldable pub release_driver : ℕ → ℕ → Tx (Unit {0})
release_driver driver company = do
  rows ← update_drivers (on_trip_where driver company) release_set
  pure tt

abbrev pub offer_in : AssignmentStatus → ℕ → ℕ → Assignment → Bool
offer_in s k company a = is_offer k company a && same a.status s

abbrev pub answer_set : AssignmentStatus → ℕ → Assignment → Assignment
answer_set s now a = record a { status = s; responded_at = some now }

abbrev pub reason_set : AssignmentStatus → ℕ → Option String → Assignment → Assignment
reason_set s now reason a = record a {
  status = s;
  responded_at = some now;
  cancellation_reason = reason;
}

-- markAssignmentAccepted
unfoldable pub mark_assignment_accepted : ℕ → ℕ → ℕ → Tx Bool
mark_assignment_accepted now k company = do
  rows ← update_assignments (offer_in notified k company) (answer_set accepted now)
  pure (length rows == 1)

-- markTimeout; the driver of the offer, if it was open.
abbrev pub first_driver : List Assignment → Option ℕ
first_driver [] = none
first_driver (a ∷ rest) = some a.driver_id

unfoldable pub mark_timeout : ℕ → ℕ → ℕ → Tx (Option ℕ)
mark_timeout now k company = do
  rows ← update_assignments (offer_in notified k company) (answer_set timeout now)
  pure (first_driver rows)

-- markRejected
unfoldable pub mark_rejected : ℕ → ℕ → ℕ → Option String → Tx Bool
mark_rejected now k company reason = do
  rows ← update_assignments (offer_in notified k company) (reason_set rejected now reason)
  pure (length rows == 1)

-- markCancelledByDriver
unfoldable pub mark_cancelled_by_driver : ℕ → ℕ → ℕ → String → Tx Bool
mark_cancelled_by_driver now k company reason = do
  rows ← update_assignments (offer_in accepted k company) (reason_set cancelled now (some reason))
  pure (length rows == 1)

-- cancelOffer
unfoldable pub cancel_offer : ℕ → ℕ → ℕ → Tx Bool
cancel_offer now k company = do
  rows ← update_assignments (offer_in notified k company) (answer_set cancelled now)
  pure (length rows == 1)

-- closeAssignmentsForTrip
abbrev pub no_driver_or : Option ℕ → ℕ → Bool
no_driver_or none d = true
no_driver_or (some driver) d = d == driver

abbrev pub live_for_trip : ℕ → ℕ → Option ℕ → Assignment → Bool
live_for_trip trip company driver a =
    a.trip_request_id == trip
    && a.company_id == company
    && includes (notified ∷ accepted ∷ []) a.status
    && no_driver_or driver a.driver_id

unfoldable pub close_assignments_for_trip :
    ℕ → ℕ → ℕ → AssignmentStatus → Option String → Option ℕ → Tx (Option ℕ)
close_assignments_for_trip now trip company status reason driver = do
  rows ← update_assignments (live_for_trip trip company driver) (reason_set status now reason)
  pure (first_driver rows)

-- The company's current commission: the open row.
abbrev pub is_open_commission : ℕ → CompanyCommission → Bool
is_open_commission company c = c.company_id == company && is_none c.valid_to

unfoldable pub get_current_commission : ℕ → Tx (Option CompanyCommission)
get_current_commission company db = done (find (is_open_commission company) db.commissions) db

-- markTripRequestAssigned: the offer still stands, the company is active and has a commission.
abbrev pub is_standing_offer : ℕ → ℕ → ℕ → ℕ → ℕ → Assignment → Bool
is_standing_offer now k trip driver company a =
    a.assignment_id == k
    && a.trip_request_id == trip
    && a.driver_id == driver
    && a.company_id == company
    && same a.status notified
    && expires_after now a.expires_at

abbrev pub is_active_company : ℕ → Company → Bool
is_active_company company c = c.company_id == company && c.active

abbrev pub may_take : ℕ → ℕ → ℕ → ℕ → ℕ → Db → Bool
may_take now k trip driver company db =
    any (is_active_company company) db.companies
    && any (is_standing_offer now k trip driver company) db.assignments

abbrev pub assign_at : String → ℕ → ℕ → ℕ → Option CompanyCommission → Tx Bool
assign_at fresh now trip company none = pure false
assign_at fresh now trip company (some c) = do
  row ←
      update_watched_trips fresh (assign_where trip company)
        (assign_set now company c.commission_pct)
  pure (is_some row)

unfoldable pub mark_trip_request_assigned : String → ℕ → ℕ → ℕ → ℕ → ℕ → Tx Bool
mark_trip_request_assigned fresh now k trip driver company db =
    if may_take now k trip driver company db
    then assign_at fresh now trip company (find (is_open_commission company) db.commissions) db
    else done false db
