-- ===== src/Collector.antt =====
-- The diagnostic collector: server/diagnostic_collector.py.
pub mod Blob
pub mod Report
pub mod GlobalReport
pub mod Store
pub mod SiteReport
