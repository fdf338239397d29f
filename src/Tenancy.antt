-- ===== src/Tenancy.antt =====
-- apps/api/src/modules/tenancy: the companies that may serve a trip.
pub mod DispatchCompanies
mod Examples
