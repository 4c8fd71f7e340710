-- ===== src/Acl.antt =====
-- internal/acl: the policy of a network, and the filter that a device enforces.
pub mod Document
pub mod Compile
pub mod Names
pub mod Meaning
pub mod Protocol
pub mod Texts
pub mod Permission
pub mod Exact
pub mod Ports
