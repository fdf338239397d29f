-- ===== src/Lib.antt =====
-- The backend of VoyYa, a dispatcher of taxis: passengers ask for a fare and request a trip, drivers
-- of affiliated companies take it and drive it, and each company settles with its drivers. The
-- library models the modules of apps/api/src/modules that decide about trips, offers, codes, sessions
-- and money, and the status tables of packages/shared that they stand on.
--
-- Parts, and the files that model them:
--   Contracts/TripStatus, Contracts/AssignmentStatus: packages/shared/src/contracts/trips.ts and
--     assignment.ts, packages/shared/src/domain/trip-state-machine.ts. Contracts/Machine has the laws
--     of the transition tables.
--   Db/Rows, Db/Tx: the tables of apps/api/prisma/schema.prisma as lists of rows, and transactions
--     (`runInTenant`, `$transaction` of apps/api/src/infrastructure/prisma/prisma.service.ts) as
--     functions from tables to an answer with tables, or to an error that leaves the tables.
--   Db/StartCodeTrigger: the trigger of
--     apps/api/prisma/migrations/20261009130000_trip_start_code/migration.sql. `fresh` stands for the
--     value of trips.new_start_code().
--   Trips/Statements, Trips/Repository: trips/trips.repository.ts and the statements on trips of
--     assignment/assignment.repository.ts, each UPDATE by its WHERE condition and its SET list.
--   Trips/Lifecycle: trips/trip-lifecycle.service.ts (markEnRoute is `drive_to_pickup`, markArrived
--     `arrive_at_pickup`, markStarted, confirmCashCollected, complete, declareNoShow).
--   Trips/Fare, Trips/Double, Trips/QuoteToken, Trips/Create, Trips/Passenger, Trips/FreeCancellation,
--     Trips/UiState: trips/trips.service.ts and its domain functions: quote, create, cancel, and what
--     a passenger sees.
--   Trips/Soundness: the well-formedness of a trip (the CHECK constraints of the start code and more),
--     statement by statement. Trips/History: calls in any order. Trips/Single, Trips/StartCode: one
--     trip under its key. Trips/ActiveTrips, Trips/Insertion, Trips/QuoteToCreate: requests.
--   The check of a requested company by the trigger of
--     apps/api/prisma/migrations/20261009120000_trip_company_scope/migration.sql is in
--     Trips/Repository.
--   Tenancy/DispatchCompanies: tenancy/dispatch-companies.resolver.ts.
--   Assignment/Targets, Assignment/TripClosing: assignment/trip-closing.service.ts.
--   Assignment/Statements, Assignment/Take, Assignment/Cancel: assignment/assignment.repository.ts and
--     accept, reject and cancelByDriver of assignment/assignment.service.ts, with the retry of
--     apps/api/src/shared/deadlock.ts.
--   Assignment/Candidates, Assignment/Dispatch, Assignment/Service: assignment/candidate.repository.ts,
--     nearest-candidate.ts and the chain of offers of assignment/assignment.service.ts: the queries of
--     candidates, one search from a driver to the next (tryNext), and every handler with its timers
--     and events.
--   Assignment/DriverRows, Assignment/DriverShift, Assignment/DriverTracking:
--     assignment/driver.repository.ts, consent-revoked.listener.ts, driver-shift.service.ts,
--     driver-tracking.service.ts.
--   Auth/Consents: auth/consent.service.ts, consent.repository.ts, consent-status.ts.
--   Auth/RefreshTokens: auth/refresh-token.service.ts. Auth/OtpIssueLimiter, Auth/OtpPolicy,
--     Auth/OtpCodes: auth/otp-issue-limiter.ts, auth/otp-policy.ts, auth/otp-issuance-sql.ts,
--     auth/auth.repository.ts and the verification of a code in auth/auth.service.ts. Auth/DriverPin:
--     the login of a driver there, auth/driver-pin.service.ts, auth/driver-pin.repository.ts and
--     auth/login-lockout.ts.
--   Settlement/Ledger, Settlement/Remittance: admin/settlement/remittance-ledger.ts,
--     settlement-remittance.service.ts and settlement.repository.ts.
--   ServiceConfig/Versions, ServiceConfig/Tables, ServiceConfig/Commissions, ServiceConfig/Fares,
--     ServiceConfig/Params, ServiceConfig/Histories, ServiceConfig/Provisioner: the repositories, the
--     services and the provisioner of service-config. The three tables of versions are written in the
--     same way, so their statements are modelled once for any key and any values, and named again for each repository.
--   Notifications/PushLedger: notifications/passenger/passenger-push.ledger.ts.
--   Prelude, with its children: Boolean tests on numbers, lists and their members, filters, results.
--   Samples and the files named Examples: small tables, on which the theorems are applied.
--
-- How they interact: the trip service and the lifecycle service call the closing of trips
-- (close_trip_in_tx), which writes trips, assignments and drivers in one transaction; taking a trip
-- writes the three tables too. All of them pass through the statements and the trigger, so the
-- soundness of a trip is proved once for each statement and lifted to calls and to histories. The
-- service of assignments keeps a chain of offers for each trip that waits, and goes on from the
-- tables that its transactions leave. A consent that is revoked is an event for the driver's rows.
--
-- Conventions: instants are milliseconds, money is whole pesos, a percentage is hundredths of a
-- percent. The percentages of a fare are taken in doubles, as the source does: Trips/Double rounds each
-- product and quotient to 53 bits. `now` is the transaction's clock, `clock` the process's. Times to
-- wait and the windows of cancellation come by municipality and service from functions. A primary key
-- makes an UPDATE by key touch one row at most, so `rows.length === 1` is that a row is found. The unique indexes on active trips and
-- on accepted and completed assignments are modelled as errors; the CHECK constraints are not
-- enforced but proved. A deadlock is what an oracle says of an attempt. `between`, `later` and the
-- fields of Meanwhile and Interference stand for the other requests that run between two statements
-- that are not one transaction. Loops are structural recursion on lists, and the one retry is recursion on its number of retries. A search for a driver
-- is recursion on fuel: each round excludes a driver or widens the radius once, so that one more round
-- than the widening and the drivers who are not asked yet is enough. A request of the service runs to
-- its end before the next touches a chain. Distances, and other numbers of PostGIS, are natural
-- numbers that stand for doubles.
--
-- Not modelled: addresses and the coordinates of trips, the distance at assignment, the events of trips
-- and logs, the functions of PostGIS (parameters), hashing, signatures and codecs (parameters), SMS and push transports, HTTP controllers and guards, the
-- screens of drivers; administrator logins and affiliation. The tables of versions stand apart from
-- the others: a trip takes the fare that holds as an argument.
mod Prelude
pub mod Contracts
pub mod Db
pub mod Trips
pub mod Assignment
pub mod Auth
pub mod Settlement
pub mod Notifications
pub mod Tenancy
pub mod Samples
pub mod ServiceConfig
