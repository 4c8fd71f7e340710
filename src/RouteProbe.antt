-- ===== src/RouteProbe.antt =====
-- Which advertiser a device uses, and when it moves (internal/routeprobe).
pub mod Assignment
pub mod Chooser
pub mod Reports
pub mod Choice
pub mod Moves
pub mod Escape
pub mod Hold
pub mod Pinned
pub mod Queue
pub mod Delivery
