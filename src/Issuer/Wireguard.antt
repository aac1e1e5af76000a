-- ===== src/Issuer/Wireguard.antt =====
-- server/wireguard_backend.py
pub mod Key
pub mod Address
pub mod Peers
pub mod Connections
