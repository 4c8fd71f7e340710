-- ===== src/Ipam.antt =====
-- internal/ipam: the addresses of a network's pool.
pub mod Allocator
pub mod Pool
pub mod Sweep
pub mod Allocation
pub mod Invariant
pub mod Refusal
pub mod Quarantine
pub mod Loading
pub mod New
pub mod Calls
pub mod Listing
pub mod Restoring
