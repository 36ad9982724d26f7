-- ===== src/Protocol.antt =====
-- The crate rust/choosh-protocol: the wire formats.
pub mod Framing
pub mod Offload
pub mod Relay
pub mod AgentEvent
pub mod TunnelFrame
