-- ===== src/Client.antt =====
-- The tunnel client: src/starfive_tunnel.py and src/network_policy.py.
pub mod Nft
pub mod Rules
pub mod Policy
pub mod Machine
pub mod Closed
pub mod Network
pub mod Guard
pub mod Apply
pub mod Egress
pub mod Resolver
pub mod Full
pub mod Path
pub mod Worker
