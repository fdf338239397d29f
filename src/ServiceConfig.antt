-- ===== src/ServiceConfig.antt =====
-- apps/api/src/modules/service-config: commissions, fares and operational parameters by version.
pub mod Fares
pub mod Params
pub mod Versions
pub mod Tables
pub mod Commissions
pub mod Histories
pub mod Provisioner
mod Examples
