-- ===== src/Relayd/Invariants.antt =====
-- What holds in every state that the relay of rust/choosh-relayd can reach.
pub mod Connections
pub mod Devices
pub mod Tokens
pub mod Tunnels
