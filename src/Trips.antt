-- ===== src/Trips.antt =====
-- apps/api/src/modules/trips: the statements on trips.trip_request, the driver's transitions of a
-- trip, and the domain functions of a fare and of a cancellation.
pub mod Statements
pub mod Repository
pub mod Soundness
pub mod Lifecycle
pub mod FreeCancellation
pub mod Double
pub mod Fare
pub mod Insertion
pub mod Passenger
pub mod UiState
pub mod History
pub mod Single
pub mod StartCode
pub mod QuoteToken
pub mod Create
pub mod ActiveTrips
pub mod QuoteToCreate
mod Examples
mod FareExamples
