-- ===== src/Assignment/Take.antt =====
-- apps/api/src/modules/assignment/assignment.service.ts: a driver takes a trip (`accept`,
-- `takeTrip`), with the retry of apps/api/src/shared/deadlock.ts. `clock` is the process's clock,
-- `now` the transaction's.
pub mod Updates
pub mod Effect
pub mod Single
use voyya_backend.Prelude.{
  Result, ok, err, ℕ, zero, suc, String, Bool, true, false, not, ◌&&◌, ◌||◌, Option, none, some,
  ltb, ◌==◌, if◌then◌else◌,
}
use voyya_backend.Contracts.AssignmentStatus.{notified, timeout, same}
use voyya_backend.Db.Rows.{TripRequest, Assignment, CompanyCommission, Db}
use voyya_backend.Db.Tx.{
  Tx, pure, throw, ◌>>=◌, run_in_tenant, DbError, deadlock, unique_violation, other_error,
  trip_request_already_taken, company_commission_missing,
}
use voyya_backend.Trips.Repository.{get_trip_request}
use voyya_backend.Assignment.Statements.{
  get_assignment, get_current_commission, mark_trip_request_assigned, take_driver,
  mark_assignment_accepted,
}

-- The accepted trip, the vehicle and the passenger.
pub data AcceptOutcome : Type 0 where
  not_found not_driver expired already_taken : AcceptOutcome
  accepted : ℕ → ℕ → ℕ → AcceptOutcome

-- getPassengerData: the passenger of the trip.
abbrev pub accepted_with : Assignment → Option TripRequest → Tx AcceptOutcome
accepted_with a none = throw other_error
accepted_with a (some t) = pure (accepted a.trip_request_id a.vehicle_id t.passenger_id)

abbrev pub confirm : Assignment → Bool → Tx AcceptOutcome
confirm a false = throw trip_request_already_taken
confirm a true = do trip ← get_trip_request a.trip_request_id; accepted_with a trip

abbrev pub accept_assignment : ℕ → Assignment → ℕ → Bool → Tx AcceptOutcome
accept_assignment now a company false = throw trip_request_already_taken
accept_assignment now a company true = do
  done' ← mark_assignment_accepted now a.assignment_id company
  confirm a done'

abbrev pub occupy_driver : ℕ → Assignment → ℕ → ℕ → Bool → Tx AcceptOutcome
occupy_driver now a driver company false = pure already_taken
occupy_driver now a driver company true = do
  taken ← take_driver driver company
  accept_assignment now a company taken

abbrev pub with_commission :
    String → ℕ → Assignment → ℕ → ℕ → Option CompanyCommission → Tx AcceptOutcome
with_commission fresh now a driver company none = throw company_commission_missing
with_commission fresh now a driver company (some c) = do
  assigned' ← mark_trip_request_assigned fresh now a.assignment_id a.trip_request_id driver company
  occupy_driver now a driver company assigned'

-- `expiresAt !== null && expiresAt < Date.now()`
abbrev pub is_past : ℕ → Option ℕ → Bool
is_past clock none = false
is_past clock (some at) = ltb at clock

unfoldable pub take_offer : String → ℕ → ℕ → ℕ → ℕ → Option Assignment → Tx AcceptOutcome
take_offer fresh clock now driver company none = pure not_found
take_offer fresh clock now driver company (some a) =
    if not (a.driver_id == driver)
    then pure not_driver
    else if same a.status timeout || is_past clock a.expires_at && same a.status notified
    then pure expired
    else if not (same a.status notified)
    then pure already_taken
    else ◌>>=◌ (get_current_commission company) (with_commission fresh now a driver company)

-- takeTrip
unfoldable pub take_trip : String → ℕ → ℕ → ℕ → ℕ → ℕ → Tx AcceptOutcome
take_trip fresh clock now k driver company = do
  a ← get_assignment k company
  take_offer fresh clock now driver company a

-- retryOnDeadlock, over an operation that the environment may answer differently each time.
abbrev pub is_deadlock : DbError → Bool
is_deadlock deadlock = true
is_deadlock _ = false

unfoldable pub retry_on_deadlock :
    {A : Type 0} → ℕ → (ℕ → Db → Result DbError A × Db) → Db → Result DbError A × Db
retry_on_deadlock zero operation db = operation zero db
retry_on_deadlock (suc retries) operation db =
    let again = retry_on_deadlock retries operation (operation (suc retries) db).1 in
    elim (operation (suc retries) db).0 [
      | ok a ↦ (ok a, (operation (suc retries) db).1)
      | err e ↦ if is_deadlock e then again else (err e, (operation (suc retries) db).1)
    ]

-- What `accept` answers the driver.
pub data AcceptResult : Type 0 where
  assignment_not_found not_the_driver commission_not_configured failed : AcceptResult
  offer_expired already_taken : AcceptResult
  accepted : ℕ → ℕ → ℕ → AcceptResult

abbrev pub accept_result : Result DbError AcceptOutcome → AcceptResult
accept_result (err company_commission_missing) = commission_not_configured
accept_result (err trip_request_already_taken) = AcceptResult.already_taken
accept_result (err unique_violation) = AcceptResult.already_taken
accept_result (err deadlock) = AcceptResult.already_taken
accept_result (err _) = failed
accept_result (ok not_found) = assignment_not_found
accept_result (ok not_driver) = not_the_driver
accept_result (ok expired) = offer_expired
accept_result (ok AcceptOutcome.already_taken) = AcceptResult.already_taken
accept_result (ok (AcceptOutcome.accepted trip vehicle passenger)) =
    AcceptResult.accepted trip vehicle passenger

-- One attempt; `locked n` says that the database ends attempt `n` by a deadlock.
unfoldable pub attempt_take :
    (ℕ → Bool) → String → ℕ → ℕ → ℕ → ℕ → ℕ → ℕ → Db → Result DbError AcceptOutcome × Db
attempt_take locked fresh clock now k driver company n db =
    if locked n
    then (err deadlock, db)
    else run_in_tenant (take_trip fresh clock now k driver company) db

-- accept
unfoldable pub accept : (ℕ → Bool) → String → ℕ → ℕ → ℕ → ℕ → ℕ → Db → AcceptResult × Db
accept locked fresh clock now k driver company db =
    let (r, db') = retry_on_deadlock 1 (attempt_take locked fresh clock now k driver company) db in
    (accept_result r, db')
