-- ===== src/Assignment.antt =====
-- apps/api/src/modules/assignment: offers of a trip to drivers, taking, cancelling and closing a
-- trip.
pub mod DriverRows
pub mod Targets
pub mod Statements
pub mod Candidates
pub mod TripClosing
pub mod Take
pub mod Dispatch
pub mod Service
pub mod DriverShift
pub mod DriverTracking
pub mod Cancel
pub mod Soundness
mod Examples
mod DispatchExamples
mod ShiftExamples
