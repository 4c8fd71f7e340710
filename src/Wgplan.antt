-- ===== src/Wgplan.antt =====
-- internal/wgplan: the plan that takes a WireGuard interface to its desired state, and what
-- internal/wglink makes of it.
pub mod Types
pub mod Prefixes
pub mod Peers
pub mod Plan
pub mod Host
pub mod Link
pub mod Running
pub mod Track
pub mod Touch
pub mod Becomes
pub mod Settle
pub mod Validate
pub mod Checked
pub mod Valid
pub mod Reach
pub mod Converge
pub mod Wanted
pub mod Rightly
pub mod Realize
pub mod Idle
pub mod Contract
pub mod Uncleared
pub mod Withdraw
