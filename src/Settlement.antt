-- ===== src/Settlement.antt =====
-- apps/api/src/modules/admin/settlement: what a driver owes the company for a week, and the ledger of
-- what has been remitted.
pub mod Ledger
pub mod Remittance
pub mod Laws
pub mod Reversal
mod Examples
