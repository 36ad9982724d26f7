-- ===== src/Relayd.antt =====
-- The crate rust/choosh-relayd: the relay that devices and phones connect to.
pub mod Wire
pub mod State
pub mod Toy
pub mod Ca
pub mod Sockets
pub mod Tunnels
pub mod Access
pub mod Listings
pub mod Requests
pub mod Dispatch
pub mod Serve
pub mod Steps
pub mod Acts
pub mod Invariants
pub mod Demo
mod Tests
mod TunnelTests
