-- ===== src/Updates.antt =====
-- src/updates: which release a client is offered.
pub mod Decision
