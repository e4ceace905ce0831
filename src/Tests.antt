-- ===== src/Tests.antt =====
-- The theorems applied to concrete inputs.
pub mod Fixtures
pub mod Surroundings
pub mod MemoryStoreCases
pub mod SqliteCases
pub mod SmtpCases
pub mod LimitCases
pub mod OtpCases
pub mod ApiCases
pub mod AttestCases
pub mod HandlerCases
pub mod OwnerCases
pub mod ConfigCases
pub mod TaskCases
pub mod ClientCases
