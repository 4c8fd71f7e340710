-- ===== src/Health.antt =====
-- The health of a route advertiser (internal/health).
pub mod Signals
pub mod Monitor
pub mod Run
pub mod Fusion
pub mod Outcomes
pub mod Cooldown
pub mod Streaks
