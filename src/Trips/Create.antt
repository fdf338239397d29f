-- ===== src/Trips/Create.antt =====
-- apps/api/src/modules/trips/trips.service.ts: `quote` and `create`. The service catalog is the
-- list of the active service types; coverage (a query of PostGIS), the codec of quotes and the
-- clocks are parameters.
use voyya_backend.Prelude.{
  Result, ok, err, ℕ, ◌+◌, String, Bool, true, not, ◌&&◌, Option, none, some, List, ltb, ◌==◌,
  if◌then◌else◌, length,
}
use voyya_backend.Prelude.Int.{ℤ, pos_part, neg_part, ◌-ℤ◌}
use voyya_backend.Db.Rows.{TripRequest, Db}
use voyya_backend.Db.Tx.{done, thrown, Outcome, unique_violation, requested_company_rejected}
use voyya_backend.Trips.Repository.{find_active_trip_request, create_trip_request, new_trip_request}
use voyya_backend.Trips.Fare.{
  Calendar, FareBreakdown, MunicipalityFareRow, calculate_fare, to_fare_params,
}
use voyya_backend.Trips.QuoteToken.{
  Point, Quote, QuoteVerification, valid, invalid, expired, Codec, sign, verify,
}
use voyya_backend.Tenancy.DispatchCompanies.{DispatchCompaniesOptions, resolve, has_id}

pub data TripsError : Type 0 where
  service_not_available out_of_coverage no_company_available fare_not_configured : TripsError
  quote_expired quote_invalid quote_mismatch company_not_available : TripsError
  -- the active request
  active_trip_request_exists : TripRequest → TripsError
  database : TripsError

pub record Environment : Type 0 where
  pub active_service_types : List ℕ
  pub covers : ℕ → Point → Bool
  pub calendar : Calendar
  pub codec : Codec
  pub ttl : ℕ
  pub current_fare : ℕ → ℕ → Option (ℕ × MunicipalityFareRow)

pub record QuoteFare : Type 0 where
  pub municipality_id : ℕ
  pub service_type : ℕ
  pub origin : Point
  pub destination : Point

-- ensureCoverage
abbrev pub in_coverage : Environment → QuoteFare → Bool
in_coverage env dto =
    env.covers dto.municipality_id dto.origin && env.covers dto.municipality_id dto.destination

abbrev pub any_company : QuoteFare → DispatchCompaniesOptions
any_company dto = record {
  service_type = some dto.service_type;
  requested_company_id = none;
  exclude_company_id = none;
}

abbrev pub quote_at :
    Environment
    → ℕ
    → QuoteFare
    → Option (ℕ × MunicipalityFareRow)
    → Result TripsError (FareBreakdown × List String)
quote_at env clock dto none = err fare_not_configured
quote_at env clock dto (some (fare_id, config)) =
    let fare = calculate_fare (to_fare_params config) clock env.calendar in
    ok (
      fare,
      sign env.codec env.ttl clock (record {
        municipality_id = dto.municipality_id;
        municipality_fare_id = fare_id;
        service_type = dto.service_type;
        origin = dto.origin;
        destination = dto.destination;
        fare = fare;
      }),
    )

-- quote
unfoldable pub quote :
    Environment → ℕ → QuoteFare → Db → Result TripsError (FareBreakdown × List String)
quote env clock dto db =
    if not (has_id dto.service_type env.active_service_types)
    then err service_not_available
    else if not (in_coverage env dto)
    then err out_of_coverage
    else if length (resolve dto.municipality_id (any_company dto) db) == 0
    then err no_company_available
    else quote_at env clock dto (env.current_fare dto.municipality_id dto.service_type)

pub record CreateTripRequest : Type 0 where
  pub quote_token : List String
  pub asked : QuoteFare
  pub requested_company_id : Option ℕ

-- |a - b| < EPS, of a millionth of a degree
abbrev pub almost_equal : ℤ → ℤ → Bool
almost_equal a b = ltb (pos_part (a -ℤ b) + neg_part (a -ℤ b)) 1000

abbrev pub close_to : Point → Point → Bool
close_to a b = almost_equal a.lat b.lat && almost_equal a.lng b.lng

-- tokenMatchesDto
abbrev pub token_matches : Quote → QuoteFare → Bool
token_matches q dto =
    q.municipality_id == dto.municipality_id
    && q.service_type == dto.service_type
    && close_to q.origin dto.origin
    && close_to q.destination dto.destination

abbrev requested_only : QuoteFare → ℕ → DispatchCompaniesOptions
requested_only dto k = record {
  service_type = some dto.service_type;
  requested_company_id = some k;
  exclude_company_id = none;
}

-- ensureRequestedCompany
abbrev pub requested_company_available : QuoteFare → Option ℕ → Db → Bool
requested_company_available dto none db = true
requested_company_available dto (some k) db =
    not (length (resolve dto.municipality_id (requested_only dto k) db) == 0)

abbrev pub winner_or : Option TripRequest → TripsError
winner_or none = database
winner_or (some winner) = active_trip_request_exists winner

-- What else happens while a request is created: what others do to the tables after the search for an
-- active request and before the insertion, whether the database ends the insertion with an error of
-- its own, and what others do after a violation and before the search for the winner.
pub record Meanwhile : Type 0 where
  pub between : Db → Db
  pub fails : Bool
  pub later : Db → Db

-- insertTripRequest: the trigger turns a company away; the index on active requests decides a race,
-- and its loser names the winner, if that is still active.
abbrev pub insertion :
    Meanwhile → TripRequest → Db → Outcome TripRequest → Result TripsError TripRequest × Db
insertion m row db (done r db') = (ok r, db')
insertion m row db (thrown requested_company_rejected) = (err company_not_available, db)
insertion m row db (thrown unique_violation) =
    (err (winner_or (find_active_trip_request row.passenger_id (m.later db))), m.later db)
insertion m row db (thrown e) = (err database, db)

unfoldable pub insert_trip_request :
    Meanwhile → TripRequest → Db → Result TripsError TripRequest × Db
insert_trip_request m row db =
    if m.fails then (err database, db) else insertion m row db (create_trip_request row db)

abbrev pub create_unless :
    Option TripRequest → TripRequest → Db → Meanwhile → Result TripsError TripRequest × Db
create_unless (some active) row db m = (err (active_trip_request_exists active), db)
create_unless none row db m = insert_trip_request m row (m.between db)

abbrev pub create_with :
    Environment
    → ℕ
    → ℕ
    → ℕ
    → CreateTripRequest
    → Meanwhile
    → Db
    → QuoteVerification
    → Result TripsError TripRequest × Db
create_with env now k passenger dto m db expired = (err quote_expired, db)
create_with env now k passenger dto m db invalid = (err quote_invalid, db)
create_with env now k passenger dto m db (valid payload) =
    let row =
      new_trip_request k passenger dto.asked.municipality_id dto.asked.service_type now
        payload.quoted.fare.total dto.requested_company_id in
    if not (token_matches payload.quoted dto.asked)
    then (err quote_mismatch, db)
    else if not (in_coverage env dto.asked)
    then (err out_of_coverage, db)
    else if not (requested_company_available dto.asked dto.requested_company_id db)
    then (err company_not_available, db)
    else create_unless (find_active_trip_request passenger db) row db m

-- create
unfoldable pub create :
    Environment
    → ℕ
    → ℕ
    → ℕ
    → ℕ
    → CreateTripRequest
    → Meanwhile
    → Db
    → Result TripsError TripRequest × Db
create env clock now k passenger dto m db =
    if not (has_id dto.asked.service_type env.active_service_types)
    then (err service_not_available, db)
    else create_with env now k passenger dto m db (verify env.codec clock dto.quote_token)
