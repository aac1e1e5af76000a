-- ===== src/Panel.antt =====
-- The broker of the administration panel: server/panel/broker.py.
pub mod Vault
pub mod Names
pub mod Steady
pub mod Accounts
