-- ===== src/Engine.antt =====
-- The crate rust/choosh-terminal-engine: the screen grid, the colours, the modes and the terminal that
-- drives them.
pub mod Color
pub mod Grid
pub mod Modes
pub mod Keys
pub mod Mouse
pub mod Terminal
pub mod Surface
mod Tests
mod InputTests
