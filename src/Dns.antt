-- ===== src/Dns.antt =====
-- The name service (internal/dns).
pub mod Label
pub mod Zones
