-- ===== src/Contracts.antt =====
-- src/contracts: display versions and composite user identifiers.
pub mod Version
pub mod UserId
mod Tests
pub mod Releases
