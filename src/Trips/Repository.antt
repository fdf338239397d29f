-- ===== src/Trips/Repository.antt =====
-- apps/api/src/modules/trips/trips.repository.ts: the operations on trips.trip_request, each with
-- what it reports when its update finds no row. `now` is the transaction's clock and `fresh` the
-- code that the start-code trigger would draw.
use voyya_backend.Prelude.{
  ℕ, ◌-◌, String, Bool, false, not, ◌&&◌, ◌||◌, Option, none, some, List, [], ◌∷◌, ◌++◌, ltb, ◌==◌,
  if◌then◌else◌, is_some, or_else, find, filter, any,
}
use voyya_backend.Contracts.TripStatus.{
  TripStatus, pending_assignment, driver_en_route, in_progress, completed, expired, same,
  is_active_trip_status,
}
use voyya_backend.Db.Rows.{TripRequest, Company, Db}
use voyya_backend.Db.Tx.{
  Tx, done, thrown, unique_violation, requested_company_rejected, pure, ◌>>=◌,
}
use voyya_backend.Trips.Statements.{
  update_trips, update_watched_trips, has_trip_id, no_driver_where, no_driver_set, en_route_where,
  en_route_set, arrived_where, arrived_set, start_where, start_set, failed_start_where,
  failed_start_set, cash_where, cash_set, start_code_max_failed_attempts,
}

pub data TripTransitionOutcome : Type 0 where
  applied : ℕ → TripTransitionOutcome
  idempotent : ℕ → TripTransitionOutcome
  rejected : TripStatus → TripTransitionOutcome

pub data StartOutcome : Type 0 where
  started : StartOutcome
  idempotent : StartOutcome
  code_required : StartOutcome
  code_invalid : ℕ → StartOutcome
  blocked : ℕ → StartOutcome
  rejected : TripStatus → StartOutcome

-- getTripRequest, and every `findUnique` by the primary key.
unfoldable pub get_trip_request : ℕ → Tx (Option TripRequest)
get_trip_request k db = done (find (has_trip_id k) db.trips) db

-- findActiveTripRequest: the latest of a passenger's active requests.
abbrev pub later : Option TripRequest → TripRequest → Option TripRequest
later none r = some r
later (some best) r =
    if ltb best.requested_at r.requested_at
      || best.requested_at == r.requested_at && ltb best.trip_request_id r.trip_request_id
    then some r
    else some best

unfoldable pub latest : List TripRequest → Option TripRequest
latest [] = none
latest (r ∷ rs) =
    let rest = latest rs in elim rest [ none ↦ some r | some best ↦ later (some best) r ]

abbrev pub is_active_of : ℕ → TripRequest → Bool
is_active_of passenger r = r.passenger_id == passenger && is_active_trip_status r.status

unfoldable pub find_active_trip_request : ℕ → Db → Option TripRequest
unfolding latest
find_active_trip_request passenger db = latest (filter (is_active_of passenger) db.trips)

-- createTripRequest, under the index uq_trip_request_active_per_passenger and the primary key.
abbrev pub new_trip_request : ℕ → ℕ → ℕ → ℕ → ℕ → ℕ → Option ℕ → TripRequest
new_trip_request k passenger municipality service now fare requested = record {
  trip_request_id = k;
  passenger_id = passenger;
  municipality_id = municipality;
  service_type = service;
  requested_at = now;
  status = pending_assignment;
  assigned_at = none;
  arrived_at = none;
  started_at = none;
  finished_at = none;
  fare = fare;
  commission = 0;
  commission_pct = none;
  net_earnings = none;
  cash_collected_at = none;
  penalty_recorded = false;
  requested_company_id = requested;
  company_id = none;
  start_code = none;
  start_code_failed_attempts = 0;
  start_code_blocked_at = none;
  start_code_exempt = false;
  updated_at = now;
}

-- The trigger trip_request_company_preference, on the company that a new request asks for.
abbrev pub serves : TripRequest → ℕ → Company → Bool
serves row j c =
    c.company_id == j
    && c.municipality_id == row.municipality_id
    && c.active
    && any (λ has. has == row.service_type) c.service_types

abbrev pub is_requested_company_rejected : TripRequest → Db → Bool
is_requested_company_rejected row db = elim row.requested_company_id [
  | none ↦ false
  | some j ↦ not (any (serves row j) db.companies)
]

unfoldable pub create_trip_request : TripRequest → Tx TripRequest
create_trip_request row db =
    if is_requested_company_rejected row db
    then thrown requested_company_rejected
    else if any (is_active_of row.passenger_id) db.trips
    then thrown unique_violation
    else done row (record db { trips = db.trips ++ row ∷ [] })

-- markNoDriverIfUnassigned
unfoldable pub mark_no_driver_if_unassigned : String → ℕ → ℕ → Tx (Option ℕ)
mark_no_driver_if_unassigned fresh now k = do
  row ← update_watched_trips fresh (no_driver_where k) (no_driver_set now)
  pure (passenger_of row)
  where
    passenger_of : Option TripRequest → Option ℕ
    passenger_of none = none
    passenger_of (some r) = some r.passenger_id

-- What markEnRoute reports of a trip that it did not update.
abbrev pub en_route_otherwise : Option TripRequest → TripTransitionOutcome
en_route_otherwise none = TripTransitionOutcome.rejected expired
en_route_otherwise (some r) =
    if same r.status driver_en_route
    then TripTransitionOutcome.idempotent r.updated_at
    else TripTransitionOutcome.rejected r.status

abbrev pub en_route_report : ℕ → Option TripRequest → Tx TripTransitionOutcome
en_route_report k (some r) = pure (applied r.updated_at)
en_route_report k none = do current ← get_trip_request k; pure (en_route_otherwise current)

unfoldable pub mark_en_route : String → ℕ → ℕ → Tx TripTransitionOutcome
mark_en_route fresh now k = do
  row ← update_watched_trips fresh (en_route_where k) (en_route_set now)
  en_route_report k row

-- markArrived; a row that it returns has an arrival.
abbrev pub arrived_otherwise : Option TripRequest → TripTransitionOutcome
arrived_otherwise none = TripTransitionOutcome.rejected expired
arrived_otherwise (some r) = elim r.arrived_at [
  | none ↦ TripTransitionOutcome.rejected r.status
  | some at ↦
      if same r.status driver_en_route
      then TripTransitionOutcome.idempotent at
      else TripTransitionOutcome.rejected r.status
]

abbrev pub arrived_report : ℕ → ℕ → Option TripRequest → Tx TripTransitionOutcome
arrived_report now k (some r) = pure (applied (or_else r.arrived_at now))
arrived_report now k none = do current ← get_trip_request k; pure (arrived_otherwise current)

unfoldable pub mark_arrived : ℕ → ℕ → Tx TripTransitionOutcome
mark_arrived now k = do
  row ← update_trips (arrived_where k) (arrived_set now)
  arrived_report now k row

-- readStartOutcome
abbrev pub start_otherwise : Option TripRequest → StartOutcome
start_otherwise none = StartOutcome.rejected expired
start_otherwise (some r) =
    if same r.status in_progress
    then StartOutcome.idempotent
    else if not (same r.status driver_en_route)
    then StartOutcome.rejected r.status
    else elim r.start_code_blocked_at [
      | some at ↦ blocked at
      | none ↦ if is_some r.start_code then code_required else StartOutcome.rejected r.status
    ]

unfoldable pub read_start_outcome : ℕ → Tx StartOutcome
read_start_outcome k = do current ← get_trip_request k; pure (start_otherwise current)

-- What recordFailedStartAttempt makes of the row that it updated.
abbrev pub failed_start_report : TripRequest → StartOutcome
failed_start_report r = elim r.start_code_blocked_at [
  | some at ↦ blocked at
  | none ↦ code_invalid (start_code_max_failed_attempts - r.start_code_failed_attempts)
]

abbrev pub failed_or_read : ℕ → Option TripRequest → Tx StartOutcome
failed_or_read k (some r) = pure (failed_start_report r)
failed_or_read k none = read_start_outcome k

unfoldable pub record_failed_start_attempt : String → ℕ → ℕ → String → Tx (Option TripRequest)
record_failed_start_attempt fresh now k code =
    update_watched_trips fresh (failed_start_where k code) (failed_start_set now)

-- startWithCode
abbrev pub not_started : String → ℕ → ℕ → Option String → Tx StartOutcome
not_started fresh now k none = read_start_outcome k
not_started fresh now k (some code) = do
  failed ← record_failed_start_attempt fresh now k code
  failed_or_read k failed

abbrev pub start_report : String → ℕ → ℕ → Option String → Option TripRequest → Tx StartOutcome
start_report fresh now k code (some r) = pure started
start_report fresh now k code none = not_started fresh now k code

unfoldable pub start_with_code : String → ℕ → ℕ → Option String → Tx StartOutcome
start_with_code fresh now k code = do
  row ← update_watched_trips fresh (start_where k code) (start_set now)
  start_report fresh now k code row

-- markCashCollected; a row that it returns has the instant of the collection.
abbrev pub cash_otherwise : Option TripRequest → TripTransitionOutcome
cash_otherwise none = TripTransitionOutcome.rejected expired
cash_otherwise (some r) = elim r.cash_collected_at [
  | none ↦ TripTransitionOutcome.rejected r.status
  | some at ↦
      if same r.status completed
      then TripTransitionOutcome.idempotent at
      else TripTransitionOutcome.rejected r.status
]

abbrev pub cash_report : ℕ → ℕ → Option TripRequest → Tx TripTransitionOutcome
cash_report now k (some r) = pure (applied (or_else r.cash_collected_at now))
cash_report now k none = do current ← get_trip_request k; pure (cash_otherwise current)

unfoldable pub mark_cash_collected : ℕ → ℕ → Tx TripTransitionOutcome
mark_cash_collected now k = do
  row ← update_trips (cash_where k) (cash_set now)
  cash_report now k row
