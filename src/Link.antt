-- ===== src/Link.antt =====
-- The link between the servers: scripts/server-link.
pub mod Health
pub mod Repair
