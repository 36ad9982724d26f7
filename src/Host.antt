-- ===== src/Host.antt =====
-- The crate rust/choosh-hostd: the host daemon.
pub mod Spool
pub mod Registry
