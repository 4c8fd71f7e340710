-- ===== src/PeerSet.antt =====
-- The desired state that a device has been told (internal/peerset).
pub mod Wire
pub mod Defs
pub mod Fold
pub mod Snapshot
pub mod Convergence
pub mod Agreement
