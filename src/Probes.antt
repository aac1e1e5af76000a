-- ===== src/Probes.antt =====
-- The synthetic probes of the server: server/packet_probe.py.
pub mod Packet
pub mod Transfer
