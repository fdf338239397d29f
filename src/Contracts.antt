-- ===== src/Contracts.antt =====
-- packages/shared/src/contracts and packages/shared/src/domain: the statuses of a trip request and
-- of an assignment with their transition tables, and the helpers on them.
pub mod TripStatus
pub mod AssignmentStatus
pub mod Machine
mod Examples
