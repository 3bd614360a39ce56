-- ===== src/Auth.antt =====
-- src/auth: access keys.
pub mod Keys
