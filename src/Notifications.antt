-- ===== src/Notifications.antt =====
-- apps/api/src/modules/notifications: how many pushes a passenger gets of a trip.
pub mod PushLedger
pub mod Kept
pub mod Bounds
pub mod Run
mod Examples
