-- ===== src/Tests.antt =====
-- Concrete runs, and each theorem at an input that meets its hypotheses.
pub mod Relay
pub mod RelayServer
pub mod RelayToken
pub mod Challenge
pub mod Prefixmap
pub mod Authz
pub mod Dns
pub mod Claims
pub mod Health
pub mod RouteProbe
pub mod PeerSet
pub mod Ipam
pub mod Routes
pub mod Acl
pub mod Wgplan
