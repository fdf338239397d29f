-- ===== src/Auth.antt =====
-- apps/api/src/modules/auth: refresh tokens, one-time passwords and the driver's PIN.
pub mod RefreshTokens
pub mod OtpIssueLimiter
pub mod OtpPolicy
pub mod OtpCodes
pub mod Consents
pub mod DriverPin
mod Examples
