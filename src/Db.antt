-- ===== src/Db.antt =====
-- The tables that the trip and assignment repositories read and write, and transactions on them.
pub mod Rows
pub mod Tx
pub mod StartCodeTrigger
