-- ===== src/Issuer.antt =====
-- server/token_issuer.py and server/wireguard_backend.py: token accounts and their devices.
pub mod Model
pub mod Names
pub mod Host
pub mod Wireguard
mod Quiet
mod TwoPhase
mod Writes
pub mod Accounts
pub mod Certificates
pub mod Revoke
pub mod Enrollment
pub mod Certify
pub mod Server
