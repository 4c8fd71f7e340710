-- ===== src/Relay.antt =====
-- The relay: its wire format (internal/relayproto) and its server (internal/relay).
pub mod Frame
pub mod State
pub mod Server
pub mod Token
