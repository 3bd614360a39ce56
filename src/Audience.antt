-- ===== src/Audience.antt =====
-- src/releases/release-audience.ts and src/audit/audience-change.ts: the users a release is for, and the
-- audit of a change of them.
pub mod Normalizing
pub mod Changes
mod Tests
