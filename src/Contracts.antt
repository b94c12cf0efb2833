-- ===== src/Contracts.antt =====
-- The data contracts of packages/contracts/src/openroad_platform_contracts: records, and the
-- `validate` methods that refuse a malformed one.
pub mod Versioned
pub mod RtlFrontend
pub mod Evidence
pub mod Script
mod Tests
pub mod Catalog
pub mod Platform
pub mod Planning
